-- ===== src/Chat/Mailbox.antt =====
-- chat/spec/src/profile.rs: `unpack_mail`, which reads what the mailbox of
-- chat/server/src/storage/profile.rs holds.
use onion_network.Base.{
  ℕ, zero, suc, ◌+◌, ◌*◌, Option, none, some, List, [], ◌∷◌, length, take, drop, leb, if◌then◌else◌,
}
use onion_network.Codec.Sum.{Result, ok, err}
use onion_network.Chat.Errors.{ChatError}
use onion_network.Chat.Profiles.{MailFile, append_mail}
pub mod Kept
pub mod Delivered
pub mod Routing
pub mod Routed
pub mod Once

-- `take(..n)` of a slice leaves a slice that is too short as it is.
abbrev pub take_bytes : ℕ → List ℕ → Option (List ℕ × List ℕ)
take_bytes n buffer = if leb n (length buffer) then some (take n buffer, drop n buffer) else none

-- One call of the iterator.
unfoldable pub next_mail : List ℕ → Option (List ℕ × List ℕ)
next_mail [] = none
next_mail (h ∷ []) = none
next_mail (h ∷ l ∷ buffer) = take_bytes (h * 256 + l) buffer

unfoldable pub mail_loop : ℕ → List ℕ → List (List ℕ)
mail_loop zero buffer = []
mail_loop (suc fuel) buffer = elim (next_mail buffer) [
  | none ↦ []
  | some (mail, rest) ↦ mail ∷ mail_loop fuel rest
]

-- Each call takes two bytes, so their number is enough.
unfoldable pub unpack_mail : List ℕ → List (List ℕ)
unpack_mail buffer = mail_loop (length buffer) buffer

-- Mails that are sent one after the other, and those of them that the mailbox takes.
abbrev pub accepted : Result (Unit {0}) ChatError → List ℕ → List (List ℕ) → List (List ℕ)
accepted (ok x) mail mails = mail ∷ mails
accepted (err e) mail mails = mails

abbrev pub append_all : List (List ℕ) → MailFile → MailFile × List (List ℕ)
append_all [] f = (f, [])
append_all (mail ∷ mails) f =
    let first = append_mail mail f in
    let rest = append_all mails (first.0) in (rest.0, accepted (first.1) mail (rest.1))
