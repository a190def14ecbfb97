-- ===== src/Chat/Profiles.antt =====
-- chat/server/src/storage/profile.rs: the mailbox and the nonces of a profile. A file is its bytes
-- and the place of its cursor; a write does not fail.
use onion_network.Base.{
  ℕ, ◌+◌, ◌-◌, ◌*◌, ◌/◌, ◌%◌, ◌^◌, List, [], ◌∷◌, ◌++◌, length, take, drop, replicate, leb,
  if◌then◌else◌,
}
use onion_network.Codec.Sum.{Result, ok, err}
use onion_network.Chat.Errors.{ChatError, invalid_action, mailbox_full, please_dont, ◌>>=◌}
use onion_network.Chat.Members.Database.{Store}

pub record MailFile : Type 0 where
  pub bytes : List ℕ
  pub cursor : ℕ

-- `MAIL_BOX_CAP`
abbrev pub mail_box_cap : ℕ
mail_box_cap = 1024 * 1024

-- `write_all`: behind the end of the file the gap is filled with zeros.
unfoldable pub write_all : List ℕ → MailFile → MailFile
write_all written f = record {
  bytes =
      (take f.cursor f.bytes ++ replicate (f.cursor - length f.bytes) 0)
      ++ (written ++ drop (f.cursor + length written) f.bytes);
  cursor = f.cursor + length written;
}

unfoldable pub append_mail : List ℕ → MailFile → MailFile × Result (Unit {0}) ChatError
append_mail [] f = (f, err please_dont)
append_mail (b ∷ bs) f =
    let mail = b ∷ bs in
    let len = length mail % 2 ^ 16 in
    if leb (length f.bytes + length mail) mail_box_cap
    then (write_all mail (write_all (len / 256 ∷ len % 256 ∷ []) f), ok tt)
    else (f, err mailbox_full)

-- The read leaves the cursor at the old end, and the cut does not move it.
unfoldable pub read_mail : MailFile → MailFile × List ℕ
read_mail f = (record { bytes = []; cursor = length f.bytes }, f.bytes)

-- The nonces at the start of the root file.
pub record Nonces : Type 0 where
  pub vault_version : ℕ
  pub mail_action : ℕ

unfoldable pub advancee_nonce : ℕ → ℕ → Result ℕ ChatError
advancee_nonce nonce new = if leb new nonce then err (invalid_action new) else ok new

unfoldable pub advance_vault_nonce : ℕ → Nonces → Result Nonces ChatError
advance_vault_nonce new root = do
  nonce ← advancee_nonce root.vault_version new
  ok (record root { vault_version = nonce })

unfoldable pub advance_mail_nonce : ℕ → Nonces → Result Nonces ChatError
advance_mail_nonce new root = do
  nonce ← advancee_nonce root.mail_action new
  ok (record root { mail_action = nonce })

-- The loop of `insert_to_vault` in its transaction.
unfoldable pub insert_to_vault : (S : Store (List ℕ)) → List (ℕ × List ℕ) → S.Db → S.Db
insert_to_vault S [] db = db
insert_to_vault S ((k, v) ∷ changes) db = insert_to_vault S changes (S.put k v db)
