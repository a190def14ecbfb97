-- ===== src/Erasure/Slices.antt =====
-- storage/berkleamp-welch/src/galois.rs: a slice that is scaled by a byte is restored by the
-- inverse of the byte, as the elimination of storage/berkleamp-welch/src/math.rs needs it.
use mathlib.Core.Path.{subst, ap₂}
use onion_network.Base.{
  ℕ, ◌-◌, ◌%◌, ◌<◌, ◌≡◌, refl, sym, ap, ◌∙◌, false, some, List, [], ◌∷◌, All, ◌==◌, arith,
}
use onion_network.Erasure.Tables.{lookup, log_table, exp_table, inv_table}
use onion_network.Erasure.Galois.{mul, div, mul_slice_in_place_low}
use onion_network.Erasure.Valid.{log_below, inv-exp, exp_positive, exp_byte, log-exp, exp_mod}
use onion_network.Erasure.Field.{mul-exp, mul_assoc, mul_one}
use onion_network.Erasure.Powers.{exp_one}

module _ (c : ℕ) (positive : 0 < c) (byte : c < 256) where
  inv_log : lookup inv_table c ≡ lookup exp_table ((255 - lookup log_table c) % 255)
  inv_log = inv-exp c positive byte ∙ exp_mod (255 - lookup log_table c) (omega arith)

  inv_positive : 0 < lookup inv_table c
  inv_positive = subst (λ d. 0 < d) (sym inv_log) (exp_positive _ (omega arith))

  pub inv_byte : lookup inv_table c < 256
  inv_byte = subst (λ d. d < 256) (sym inv_log) (exp_byte _ (omega arith))

  mul-inv : mul (lookup inv_table c) c ≡ 1
  mul-inv =
      mul-exp (lookup inv_table c) c inv_positive inv_byte positive byte
      ∙ ap (lookup exp_table) (omega (arith, log_inv, log_below c positive byte))
      ∙ exp_one
    where
      log_inv : lookup log_table (lookup inv_table c) ≡ (255 - lookup log_table c) % 255
      log_inv = ap (lookup log_table) inv_log ∙ log-exp _ (omega arith)

  unscaled : (x : ℕ) → x < 256 → mul (lookup inv_table c) (mul c x) ≡ x
  unscaled x byte_x =
      sym (mul_assoc (lookup inv_table c) c x inv_byte byte byte_x)
      ∙ ap (λ u. mul u x) mul-inv
      ∙ mul_one x byte_x

  restored :
      (xs : List ℕ)
      → All (λ x. x < 256) xs
      → mul_slice_in_place_low (lookup inv_table c) (mul_slice_in_place_low c xs) ≡ xs
  unfolding mul
  restored [] bytes = refl
  restored (x ∷ xs) (byte_x, bytes) = ap₂ (λ y r. y ∷ r) (unscaled x byte_x) (restored xs bytes)

  -- The quotient of 1 and a byte other than zero exists, and scaling a slice of bytes by it
  -- restores what scaling by the byte has made of the slice.
  pub mul_slice_in_place_low-div :
      (xs : List ℕ)
      → All (λ x. x < 256) xs
      → (div 1 c ≡ some (lookup inv_table c))
        × (mul_slice_in_place_low (lookup inv_table c) (mul_slice_in_place_low c xs) ≡ xs)
  unfolding div
  mul_slice_in_place_low-div xs bytes = (rw some_c refl, restored xs bytes)
    where
      some_c : (c == 0) ≡ false
      some_c = ground arith
