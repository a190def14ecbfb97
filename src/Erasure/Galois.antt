-- ===== src/Erasure/Galois.antt =====
-- storage/berkleamp-welch/src/galois.rs: the operations of the field, and the loops over slices
-- that are taken where there are no vector instructions.
use Prim.Native.Nat.{bit_xor}
use onion_network.Base.{
  ℕ, zero, suc, ◌+◌, ◌-◌, ◌*◌, ◌%◌, ◌^◌, Option, none, some, List, [], ◌∷◌, map, ltb, leb, ◌==◌,
  if◌then◌else◌,
}
use onion_network.Erasure.Tables.{lookup, row, log_table, exp_table, inv_table, mul_table}

abbrev pub add : ℕ → ℕ → ℕ
add a b = bit_xor a b

unfoldable pub mul : ℕ → ℕ → ℕ
mul a b = lookup (row mul_table a) b

-- `log_a as isize - log_b as isize`, and 255 more where that is negative.
abbrev pub log_difference : ℕ → ℕ → ℕ
log_difference log_a log_b = if ltb log_a log_b then (log_a + 255) - log_b else log_a - log_b

unfoldable pub div : ℕ → ℕ → Option ℕ
div a b =
    if b == 0
    then none
    else if a == 0
    then some 0
    else if a == 1
    then some (lookup inv_table b)
    else some (lookup exp_table (log_difference (lookup log_table a) (lookup log_table b)))

-- The loop of `exp`, with so many rounds at most.
unfoldable pub reduce : ℕ → ℕ → ℕ
reduce zero log_result = log_result
reduce (suc rounds) log_result =
    let rest = reduce rounds (log_result - 255) in if leb 255 log_result then rest else log_result

-- `log_a as usize * n`, which wraps around.
unfoldable pub exp : ℕ → ℕ → ℕ
exp a n =
    let log_result = (lookup log_table a * n) % 2 ^ 64 in
    if n == 0 then 1 else if a == 0 then 0 else lookup exp_table (reduce log_result log_result)

-- Slices of different lengths panic.
unfoldable pub mul_slice_xor_low : ℕ → List ℕ → List ℕ → Option (List ℕ)
mul_slice_xor_low c [] [] = some []
mul_slice_xor_low c (i ∷ input) (o ∷ out) = elim (mul_slice_xor_low c input out) [
  | none ↦ none
  | some rest ↦ some (bit_xor o (lookup (row mul_table c) i) ∷ rest)
]
mul_slice_xor_low c [] (o ∷ out) = none
mul_slice_xor_low c (i ∷ input) [] = none

abbrev pub mul_slice_in_place_low : ℕ → List ℕ → List ℕ
mul_slice_in_place_low c out = map (λ o. lookup (row mul_table c) o) out
