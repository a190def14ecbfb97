-- ===== src/Chat/Mailbox/Once.antt =====
-- chat/server/src/storage.rs: `read_mail`, which a proof with a new nonce allows once, and the calls
-- that a profile can have between two reads.
use onion_network.Base.{ℕ, ◌≤◌, Bool, true, false, List, [], ◌∷◌, if◌then◌else◌}
use onion_network.Codec.Sum.{Result, ok, err}
use onion_network.Chat.Errors.{ChatError, invalid_proof}
use onion_network.Chat.Members.{Proof}
use onion_network.Chat.Profiles.{
  MailFile, Nonces, append_mail, read_mail, advance_mail_nonce, advance_vault_nonce,
}

pub record Profile : Type 0 where
  pub nonces : Nonces
  pub mailbox : MailFile

abbrev read_after : Result Nonces ChatError → Profile → Profile × Result (List ℕ) ChatError
read_after (err e) p = (p, err e)
read_after (ok nonces) p =
    let mail = read_mail p.mailbox in (record { nonces = nonces; mailbox = mail.0 }, ok (mail.1))

module _ (verify : Proof → Bool) where
  unfoldable pub read_mail_proved : Proof → Profile → Profile × Result (List ℕ) ChatError
  read_mail_proved proof p =
      if verify proof
      then read_after (advance_mail_nonce proof.nonce p.nonces) p
      else (p, err invalid_proof)

  -- The calls that change a profile. `recover_profile` writes new files, with the nonces that a peer
  -- has; a handle in the cache goes on with the old ones.
  pub data ProfileCall : Type 0 where
    reads : Proof → ProfileCall
    takes_mail : List ℕ → ProfileCall
    advances_vault : ℕ → ProfileCall
    recovers : (in_cache : Bool) → Nonces → ProfileCall

  abbrev with_nonces : Result Nonces ChatError → Profile → Profile
  with_nonces (ok nonces) p = record p { nonces = nonces }
  with_nonces (err e) p = p

  unfoldable pub profile_call : ProfileCall → Profile → Profile
  profile_call (reads proof) p = (read_mail_proved proof p).0
  profile_call (takes_mail mail) p = record p { mailbox = (append_mail mail p.mailbox).0 }
  profile_call (advances_vault nonce) p = with_nonces (advance_vault_nonce nonce p.nonces) p
  profile_call (recovers true root) p = p
  profile_call (recovers false root) p = record {
    nonces = root;
    mailbox = record { bytes = []; cursor = 0 };
  }

  -- A recovery brings a mail nonce of at least this number.
  abbrev pub IsUpToDate : ℕ → ProfileCall → Type 0
  IsUpToDate n (recovers false root) = n ≤ root.mail_action
  IsUpToDate n c = Unit

  abbrev pub profile_calls : List ProfileCall → Profile → Profile
  profile_calls [] p = p
  profile_calls (c ∷ calls) p = profile_calls calls (profile_call c p)
