-- ===== src/Chat/MailExamples.antt =====
-- chat/server/src/storage/profile.rs: mailboxes of a few mails; chat/server/src/api: a mail that is
-- routed, and the answers of five nodes.
use onion_network.Base.{
  ℕ, ◌≡◌, refl, Bool, true, false, none, some, List, [], ◌∷◌, ◌++◌, ltb, ◌==◌, ==_iff,
  if◌then◌else◌, arith,
}
use onion_network.Codec.Sum.{Result, ok, err}
use onion_network.Chat.Errors.{ChatError, timeout, rate_limited, ongoing_recovery, sent_directly}
use onion_network.Chat.Members.{Proof}
use onion_network.Chat.Mailbox.Once.{
  Profile, ProfileCall, takes_mail, advances_vault, recovers, profile_call, profile_calls,
  read_mail_proved,
}
use onion_network.Chat.Reputation.{Rep, rate}
use onion_network.Chat.Consensus.{Recoveries, start_recovery, tally_round, tally_loop, repl_call}
use onion_network.Chat.Consensus.Majority.{agreeing}
use onion_network.Chat.Consensus.Answers.{IsDecision, repl_call-IsDecision, repl_call-recovers}
use onion_network.Chat.Equality.{same_error, same_answer}
use onion_network.Chat.Mailbox.Routing.{
  at_path, ClientEvent, Reply, Node, push_profile_event, send_mail,
}
use onion_network.Chat.Mailbox.Routed.{IsRouted, send_mail-IsRouted}
use onion_network.Chat.Profiles.{
  append_mail, read_mail, write_all, advance_mail_nonce, advancee_nonce,
}
use onion_network.Chat.Mailbox.{unpack_mail, append_all}
use onion_network.Chat.Mailbox.Kept.{frames, file}
use onion_network.Chat.Mailbox.Delivered.{
  no_mails, unpack_mail-read_mail-append_all, append_mail-read_mail-loses,
}

abbrev old_mails : List (List ℕ)
old_mails = (7 ∷ 8 ∷ 9 ∷ []) ∷ []

abbrev new_mails : List (List ℕ)
new_mails = (1 ∷ 2 ∷ []) ∷ [] ∷ (3 ∷ []) ∷ []

unpack_mail-read_mail-append_all_example :
    unpack_mail ((read_mail ((append_all new_mails (file (frames old_mails))).0)).1)
    ≡ old_mails ++ (append_all new_mails (file (frames old_mails))).1
unpack_mail-read_mail-append_all_example =
    unpack_mail-read_mail-append_all old_mails new_mails (file (frames old_mails)) (omega arith, tt)
      (omega arith, (omega arith, (omega arith, tt))) refl refl

append_mail-read_mail-loses_example :
    let sent = append_mail (1 ∷ 2 ∷ []) ((read_mail (file (frames old_mails))).0) in
    (sent.1 ≡ ok tt) × (unpack_mail ((read_mail (sent.0)).1) ≡ no_mails 3)
append_mail-read_mail-loses_example =
    append_mail-read_mail-loses 2 1 (2 ∷ []) (file (frames old_mails)) refl (omega arith)

-- A client that subscribed to profile 4 by its call 9, and whose reader is online here.
abbrev node : Node
node = record {
  online = (4, at_path 2) ∷ [];
  profile_subs = (4, (2, 9)) ∷ [];
  clients = (2, []) ∷ [];
  chat_subs = [];
  mailboxes = (4, file []) ∷ [];
}

abbrev always : ℕ → List ClientEvent → Bool
always path events = true

abbrev no_reply : ℕ → ℕ → List ℕ → Reply
no_reply who peer mail = err timeout

queued_mail : (send_mail always no_reply (at_path 3) 4 (1 ∷ []) node).1 ≡ err sent_directly
unfolding send_mail push_profile_event
queued_mail = refl

send_mail-IsRouted_example :
    IsRouted no_reply 4 (1 ∷ []) node (send_mail always no_reply (at_path 3) 4 (1 ∷ []) node)
send_mail-IsRouted_example = send_mail-IsRouted no_reply 4 (1 ∷ []) node always (at_path 3)

abbrev same_number : ℕ → ℕ → Bool
same_number a b = a == b

abbrev answers : List (ℕ × Result ℕ ChatError)
answers = (1, ok 7) ∷ (2, err timeout) ∷ (3, ok 7) ∷ (5, ok 7) ∷ []

abbrev no_rep : Rep
no_rep = record { ratings = λ id. none; to_punish = [] }

abbrev no_recoveries : Recoveries
no_recoveries = record { ongoing = []; spawned = [] }

outvoted_answer :
    let r = repl_call same_number 4 6 (ok 8) (ok answers) no_rep no_recoveries in
    (r.0 ≡ ok 7) × ((r.2).spawned ≡ 6 ∷ []) × ((r.1).ratings 2 ≡ some 10)
unfolding repl_call tally_loop tally_round start_recovery rate same_answer same_error
outvoted_answer = (refl, refl, refl)

-- Waits are compared with a tolerance, so the order of the answers decides: three of the five are
-- the same as the middle one, but the first takes the middle one with it.
abbrev waits : List (ℕ × Result ℕ ChatError)
waits = (1, err (rate_limited 2900)) ∷ (2, err (rate_limited 5800)) ∷ (3, ok 1) ∷ (5, ok 2) ∷ []

split_waits :
    ((repl_call same_number 4 6 (err (rate_limited 0)) (ok waits) no_rep no_recoveries).0
      ≡ err ongoing_recovery)
    × (agreeing
          (same_answer same_number)
          (err (rate_limited 2900))
          ((4, err (rate_limited 0)) ∷ waits)
        ≡ 3)
unfolding repl_call tally_loop tally_round start_recovery rate same_answer same_error
split_waits = (refl, refl)

repl_call-IsDecision_example :
    IsDecision same_number
      ((repl_call same_number 4 6 (ok 8) (ok answers) no_rep no_recoveries).0)
      ((4, ok 8) ∷ answers)
repl_call-IsDecision_example =
    repl_call-IsDecision same_number ==_iff 4 6 (ok 8) answers no_rep no_recoveries refl
      (omega arith)

repl_call-recovers_example :
    (repl_call same_number 4 6 (ok 8) (ok answers) no_rep no_recoveries).2 ≡ (
      if ltb 2 (agreeing (same_answer same_number) (ok 8) ((4, ok 8) ∷ answers))
      then no_recoveries
      else (start_recovery 6 no_recoveries).1)
repl_call-recovers_example =
    repl_call-recovers same_number ==_iff 4 6 (ok 8) answers no_rep no_recoveries refl
      (ground arith, (ground arith, (ground arith, (ground arith, tt))))

abbrev profile : Profile
profile = record {
  nonces = record { vault_version = 0; mail_action = 2 };
  mailbox = file (frames old_mails);
}

abbrev read_proof : Proof
read_proof = record { pk = 4; nonce = 3; signature = 0; context = 0 }

abbrev by_anyone : Proof → Bool
by_anyone proof = true

abbrev since : List (ProfileCall by_anyone)
since =
    takes_mail (5 ∷ [])
    ∷ advances_vault 6
    ∷ recovers false (record { vault_version = 8; mail_action = 3 })
    ∷ []

-- A recovery that brings an older nonce lets the proof read the mails that come then.
abbrev set_back : List (ProfileCall by_anyone)
set_back = recovers false (record { vault_version = 0; mail_action = 2 }) ∷ takes_mail (5 ∷ []) ∷ []

read_again :
    (read_mail_proved by_anyone read_proof
      (profile_calls by_anyone set_back ((read_mail_proved by_anyone read_proof profile).0))).1
    ≡ ok (0 ∷ 1 ∷ 5 ∷ [])
unfolding read_mail_proved profile_call append_mail write_all advance_mail_nonce advancee_nonce
    read_mail
read_again = refl
