-- ===== src/Chat/Equality.antt =====
-- chat/spec/src/lib.rs: the equality of answers, which `ChatError` and `Result` derive,
-- and that of `MsTilEnd`.
use onion_network.Base.{
  ℕ, ◌+◌, ◌-◌, ◌≡◌, ◌↔◌, refl, sym, ap, ◌∙◌, Bool, true, false, ◌&&◌, some, List, [], ◌∷◌,
  get_elem?, ltb, ◌==◌, ==_refl, ==_iff, if◌then◌else◌, Bool-cases, inl, inr, arith,
}
use mathlib.Core.Option.{some-injective}
use onion_network.Codec.Sum.{Result, ok, err}
use onion_network.Chat.Errors.{
  ChatError, todo, ise, ongoing_recovery, too_many_keys, value_too_large, invalid_proof,
  invalid_proof_context, not_found, outdated, already_exists, sent_directly, sending_to_self,
  mailbox_full, not_member, already_member, message_too_large, message_overload, no_blocks,
  no_replicator, block_unexpected_messages, outdated_block_number, wrong_proposer,
  wrong_block_number, no_majority, already_voted, vote_not_found, no_permission, invalid_response,
  timeout, please_dont, invalid_action, rate_limited, io,
}

-- The place of an error among the constructors, and what it holds.
abbrev error_tag : ChatError → ℕ
error_tag todo = 0
error_tag ise = 1
error_tag ongoing_recovery = 2
error_tag too_many_keys = 3
error_tag value_too_large = 4
error_tag invalid_proof = 5
error_tag invalid_proof_context = 6
error_tag not_found = 7
error_tag outdated = 8
error_tag already_exists = 9
error_tag sent_directly = 10
error_tag sending_to_self = 11
error_tag mailbox_full = 12
error_tag not_member = 13
error_tag already_member = 14
error_tag message_too_large = 15
error_tag message_overload = 16
error_tag no_blocks = 17
error_tag no_replicator = 18
error_tag block_unexpected_messages = 19
error_tag outdated_block_number = 20
error_tag wrong_proposer = 21
error_tag wrong_block_number = 22
error_tag no_majority = 23
error_tag already_voted = 24
error_tag vote_not_found = 25
error_tag no_permission = 26
error_tag invalid_response = 27
error_tag timeout = 28
error_tag please_dont = 29
error_tag (invalid_action x) = 30
error_tag (rate_limited x) = 31
error_tag (io x) = 32

abbrev error_payload : ChatError → ℕ
error_payload (invalid_action x) = x
error_payload (rate_limited x) = x
error_payload (io x) = x
error_payload e = 0

abbrev all_errors : ℕ → List ChatError
all_errors x =
    todo
    ∷ ise
    ∷ ongoing_recovery
    ∷ too_many_keys
    ∷ value_too_large
    ∷ invalid_proof
    ∷ invalid_proof_context
    ∷ not_found
    ∷ outdated
    ∷ already_exists
    ∷ sent_directly
    ∷ sending_to_self
    ∷ mailbox_full
    ∷ not_member
    ∷ already_member
    ∷ message_too_large
    ∷ message_overload
    ∷ no_blocks
    ∷ no_replicator
    ∷ block_unexpected_messages
    ∷ outdated_block_number
    ∷ wrong_proposer
    ∷ wrong_block_number
    ∷ no_majority
    ∷ already_voted
    ∷ vote_not_found
    ∷ no_permission
    ∷ invalid_response
    ∷ timeout
    ∷ please_dont
    ∷ invalid_action x
    ∷ rate_limited x
    ∷ io x
    ∷ []

and_left : (x y : Bool) → (x && y) ≡ true → x ≡ true
and_left true y e = refl
and_left false y e = e

and_right : (x y : Bool) → (x && y) ≡ true → y ≡ true
and_right true y e = e
and_right false y e = absurd (ground (arith, e))

all_errors-error_tag :
    (e : ChatError) → get_elem? (all_errors (error_payload e)) (error_tag e) ≡ some e
all_errors-error_tag todo = refl
all_errors-error_tag ise = refl
all_errors-error_tag ongoing_recovery = refl
all_errors-error_tag too_many_keys = refl
all_errors-error_tag value_too_large = refl
all_errors-error_tag invalid_proof = refl
all_errors-error_tag invalid_proof_context = refl
all_errors-error_tag not_found = refl
all_errors-error_tag outdated = refl
all_errors-error_tag already_exists = refl
all_errors-error_tag sent_directly = refl
all_errors-error_tag sending_to_self = refl
all_errors-error_tag mailbox_full = refl
all_errors-error_tag not_member = refl
all_errors-error_tag already_member = refl
all_errors-error_tag message_too_large = refl
all_errors-error_tag message_overload = refl
all_errors-error_tag no_blocks = refl
all_errors-error_tag no_replicator = refl
all_errors-error_tag block_unexpected_messages = refl
all_errors-error_tag outdated_block_number = refl
all_errors-error_tag wrong_proposer = refl
all_errors-error_tag wrong_block_number = refl
all_errors-error_tag no_majority = refl
all_errors-error_tag already_voted = refl
all_errors-error_tag vote_not_found = refl
all_errors-error_tag no_permission = refl
all_errors-error_tag invalid_response = refl
all_errors-error_tag timeout = refl
all_errors-error_tag please_dont = refl
all_errors-error_tag (invalid_action x) = refl
all_errors-error_tag (rate_limited x) = refl
all_errors-error_tag (io x) = refl

-- `MsTilEnd` compares waits up to three seconds apart as equal, all other errors are compared exactly.
abbrev rate_limited_tag : ℕ
rate_limited_tag = error_tag (rate_limited 0)

abbrev pub is_rate_limited : ChatError → Bool
is_rate_limited e = error_tag e == rate_limited_tag

abbrev abs_diff : ℕ → ℕ → ℕ
abs_diff m n = (m - n) + (n - m)

abbrev same_payload : ℕ → ℕ → ℕ → Bool
same_payload tag m n = if tag == rate_limited_tag then ltb (abs_diff m n) 3000 else m == n

unfoldable pub same_error : ChatError → ChatError → Bool
same_error a b =
    (error_tag a == error_tag b) && same_payload (error_tag a) (error_payload a) (error_payload b)

-- `same_ok` is the equality that the values of an answer derive.
unfoldable pub same_answer :
    {O : Type 0} → (O → O → Bool) → Result O ChatError → Result O ChatError → Bool
same_answer same_ok (ok a) (ok b) = same_ok a b
same_answer same_ok (err a) (err b) = same_error a b
same_answer same_ok (ok a) (err b) = false
same_answer same_ok (err a) (ok b) = false

abbrev pub is_limited : {O : Type 0} → Result O ChatError → Bool
is_limited (ok a) = false
is_limited (err e) = is_rate_limited e

-- What is the same as an error of another kind is equal to it.
same_payload-exact :
    (tag m n : ℕ) → (tag == rate_limited_tag) ≡ false → same_payload tag m n ≡ true → m ≡ n
same_payload-exact tag m n other e = let at = rw other at e in (==_iff m n).0 at

same_error-equal : (a b : ChatError) → is_rate_limited a ≡ false → same_error a b ≡ true → a ≡ b
unfolding same_error
same_error-equal a b other e = some-injective _ _ (
    sym (all_errors-error_tag a)
    ∙ ap (λ t. get_elem? (all_errors (error_payload a)) t) tags
    ∙ ap (λ x. get_elem? (all_errors x) (error_tag b))
        (same_payload-exact (error_tag a) (error_payload a) (error_payload b) other
          (and_right _ _ e))
    ∙ all_errors-error_tag b)
  where
    tags : error_tag a ≡ error_tag b
    tags = (==_iff (error_tag a) (error_tag b)).0 (and_left _ _ e)

same_error_refl : (a : ChatError) → same_error a a ≡ true
unfolding same_error
same_error_refl a = rw (==_refl (error_tag a)) (elim (Bool-cases (is_rate_limited a)) [
  | inl limited ↦ rw limited (ground arith)
  | inr other ↦ rw other (==_refl (error_payload a))
])

same_error-tags : (a b : ChatError) → same_error a b ≡ true → error_tag a ≡ error_tag b
unfolding same_error
same_error-tags a b e = (==_iff (error_tag a) (error_tag b)).0 (and_left _ _ e)

module _ {O : Type 0} (same_ok : O → O → Bool)
    (same_ok_iff : (a b : O) → (same_ok a b ≡ true) ↔ (a ≡ b)) where
  pub same_answer_refl : (a : Result O ChatError) → same_answer same_ok a a ≡ true
  unfolding same_answer
  same_answer_refl (ok a) = (same_ok_iff a a).1 refl
  same_answer_refl (err e) = same_error_refl e

  pub same_answer-equal :
      (a b : Result O ChatError) → is_limited a ≡ false → same_answer same_ok a b ≡ true → a ≡ b
  unfolding same_answer
  same_answer-equal (ok a) (ok b) other e = ap ok ((same_ok_iff a b).0 e)
  same_answer-equal (err a) (err b) other e = ap err (same_error-equal a b other e)
  same_answer-equal (ok a) (err b) other e = ground (arith, e)
  same_answer-equal (err a) (ok b) other e = ground (arith, e)

  pub same_answer-equal_right :
      (a b : Result O ChatError) → is_limited a ≡ false → same_answer same_ok b a ≡ true → a ≡ b
  unfolding same_answer
  same_answer-equal_right (ok a) (ok b) other e = sym (ap ok ((same_ok_iff b a).0 e))
  same_answer-equal_right (err a) (err b) other e =
      sym (ap err (same_error-equal b a (rw (same_error-tags b a e) other) e))
  same_answer-equal_right (ok a) (err b) other e = ground (arith, e)
  same_answer-equal_right (err a) (ok b) other e = ground (arith, e)
