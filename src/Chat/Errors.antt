-- ===== src/Chat/Errors.antt =====
-- chat/spec/src/lib.rs: the errors of the chat server, and the chains of its results.
use onion_network.Base.{ℕ, Bool, true, false, Option, none, some}
use onion_network.Codec.Sum.{Result, ok, err}

pub data ChatError : Type 0 where
  todo ise ongoing_recovery too_many_keys value_too_large invalid_proof invalid_proof_context :
      ChatError
  not_found outdated already_exists sent_directly sending_to_self mailbox_full not_member :
      ChatError
  already_member : ChatError
  invalid_action : ℕ → ChatError
  message_too_large message_overload no_blocks no_replicator block_unexpected_messages : ChatError
  outdated_block_number wrong_proposer wrong_block_number no_majority already_voted : ChatError
  vote_not_found no_permission : ChatError
  rate_limited : ℕ → ChatError
  invalid_response timeout please_dont : ChatError
  io : ℕ → ChatError

-- The rest of a function after `?`.
infixl 5 ◌>>=◌ ◌>>◌
abbrev pub ◌>>=◌ :
    {A B : Type 0} → Result A ChatError → (A → Result B ChatError) → Result B ChatError
ok a >>= f = f a
err e >>= f = err e

abbrev pub ◌>>◌ : {A B : Type 0} → Result A ChatError → Result B ChatError → Result B ChatError
m >> k = m >>= λ _. k

-- `handlers::ensure!(b, e)`
abbrev pub ensure : Bool → ChatError → Result (Unit {0}) ChatError
ensure true e = ok tt
ensure false e = err e

-- `.context(..)?`: an error of the database is an internal one.
abbrev pub context : {A : Type 0} → Option A → Result A ChatError
context (some a) = ok a
context none = err ise

-- `ChatError::recover`
unfoldable pub recover : ChatError → Result (Unit {0}) ChatError
recover sent_directly = ok tt
recover e = err e
