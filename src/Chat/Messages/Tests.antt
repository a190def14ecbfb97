-- ===== src/Chat/Messages/Tests.antt =====
-- The rows of the source's own test of `retain_messages`.
use onion_network.Base.{ℕ, ◌≡◌, refl, some, Bool, List, [], ◌∷◌, ◌==◌, all}
use onion_network.Chat.Messages.{
  retain_messages, retain_loop, visit, move_mem, copy, sub_slice, unpack_messages, next_message,
  take_from, wrapping_sub, from_be_bytes,
}

abbrev is_zeroed : List ℕ → Bool
is_zeroed = all (λ b. b == 0)

unpack_two :
    unpack_messages (0 ∷ 0 ∷ 1 ∷ 0 ∷ 0 ∷ 4 ∷ 0 ∷ 0 ∷ 0 ∷ 2 ∷ [])
    ≡ (0 ∷ 0 ∷ []) ∷ (0 ∷ 0 ∷ 1 ∷ 0 ∷ []) ∷ []
unfolding unpack_messages next_message take_from wrapping_sub from_be_bytes
unpack_two = refl

retain_row_6 :
    retain_messages is_zeroed (0 ∷ 0 ∷ 1 ∷ 0 ∷ 0 ∷ 4 ∷ 0 ∷ 0 ∷ 0 ∷ 2 ∷ [])
    ≡ some (0 ∷ 0 ∷ 0 ∷ 2 ∷ [])
unfolding retain_messages retain_loop visit move_mem copy sub_slice from_be_bytes
retain_row_6 = refl

retain_row_7 :
    retain_messages is_zeroed (0 ∷ 0 ∷ 1 ∷ 0 ∷ 0 ∷ 4 ∷ 0 ∷ 0 ∷ 0 ∷ 2 ∷ 1 ∷ 0 ∷ 1 ∷ [])
    ≡ some (0 ∷ 0 ∷ 0 ∷ 2 ∷ [])
unfolding retain_messages retain_loop visit move_mem copy sub_slice from_be_bytes
retain_row_7 = refl

retain_row_8 :
    retain_messages is_zeroed (1 ∷ 0 ∷ 1 ∷ 1 ∷ 0 ∷ 1 ∷ 0 ∷ 0 ∷ 1 ∷ 0 ∷ 1 ∷ []) ≡ some (0 ∷ 0 ∷ [])
unfolding retain_messages retain_loop visit move_mem copy sub_slice from_be_bytes
retain_row_8 = refl

retain_row_11 : retain_messages is_zeroed (0 ∷ 0 ∷ 20 ∷ []) ≡ some []
unfolding retain_messages retain_loop visit move_mem copy sub_slice from_be_bytes
retain_row_11 = refl
