-- ===== src/Erasure/Powers.antt =====
-- storage/berkleamp-welch/src/galois.rs: `div` undoes the product, and `exp` repeats it.
use mathlib.Core.Path.{subst}
use native.Mathlib.Nat.{mul-suc, mul-zero, mul-le-mul_right}
use onion_network.Base.{
  ℕ, zero, suc, ◌+◌, ◌-◌, ◌*◌, ◌%◌, ◌^◌, ◌<◌, ◌≤◌, ◌≡◌, inl, inr, refl, sym, ap, ◌∙◌, true, false,
  none, some, leb, ◌==◌, ==_iff, Bool-cases, arith,
}
use onion_network.Erasure.Tables.{
  lookup, log_table, exp_table, inv_table, gen_log_table, gen_exp_table,
}
use onion_network.Erasure.Galois.{mul, div, exp, reduce, log_difference}
use onion_network.Erasure.Valid.{
  log_below, exp-log, inv-exp, exp_positive, exp_byte, log-exp, exp_mod,
}
use onion_network.Erasure.Field.{
  zero_or_positive, mul_zero_left, mul-exp, mul_positive, log-mul, log_one,
}

==_path : {a b : ℕ} → (a == b) ≡ true → a ≡ b
==_path {a} {b} h = (==_iff a b).0 h

module _ (a b : ℕ) (positive_a : 0 < a) (byte_a : a < 256) (positive_b : 0 < b)
    (byte_b : b < 256) where
  inv-mul : mul a b ≡ 1 → lookup inv_table b ≡ a
  inv-mul unit =
      inv-exp b positive_b byte_b
      ∙ exp_mod (255 - lookup log_table b) (omega arith)
      ∙ ap (lookup exp_table)
          (omega (arith, sums, log_below a positive_a byte_a, log_below b positive_b byte_b))
      ∙ exp-log a positive_a byte_a
    where
      sums : (lookup log_table a + lookup log_table b) % 255 ≡ 0
      sums =
          sym (log-mul a b positive_a byte_a positive_b byte_b)
          ∙ ap (lookup log_table) unit
          ∙ log_one

  log_difference-mul :
      log_difference (lookup log_table (mul a b)) (lookup log_table b) ≡ lookup log_table a
  log_difference-mul =
      go (lookup log_table a) (lookup log_table b) (lookup log_table (mul a b))
        (log_below a positive_a byte_a) (log_below b positive_b byte_b)
        (log-mul a b positive_a byte_a positive_b byte_b)
    where
      go : (x y z : ℕ) → x < 255 → y < 255 → z ≡ (x + y) % 255 → log_difference z y ≡ x
      go x y z below_x below_y sums = ground (arith, sums)

div-mul_positive : (a b : ℕ) → 0 < a → a < 256 → 0 < b → b < 256 → div (mul a b) b ≡ some a
unfolding div
div-mul_positive a b pa ba pb bb = elim (Bool-cases (mul a b == 1)) [
  | inl unit ↦ rw (some_b, some_product, unit) (ap some (inv-mul a b pa ba pb bb (==_path unit)))
  | inr other ↦
      rw (some_b, some_product, other)
        (ap some (ap (lookup exp_table) (log_difference-mul a b pa ba pb bb) ∙ exp-log a pa ba))
]
  where
    some_b : (b == 0) ≡ false
    some_b = ground arith

    positive : 0 < mul a b
    positive = mul_positive a b pa ba pb bb

    some_product : (mul a b == 0) ≡ false
    some_product = ground (arith, positive)

-- Division by a byte other than zero undoes the product with it, and division by zero has no
-- result.
pub div-mul : (a b : ℕ) → a < 256 → b < 256 → 0 < b → (div (mul a b) b ≡ some a) × (div a 0 ≡ none)
unfolding div
div-mul a b byte_a byte_b positive_b = elim (zero_or_positive a) [
  | inl none_a ↦ (rw (none_a, mul_zero_left b byte_b, some_b) refl, refl)
  | inr positive_a ↦ (div-mul_positive a b positive_a byte_a positive_b byte_b, refl)
]
  where
    some_b : (b == 0) ≡ false
    some_b = ground arith

reduce-mod :
    (rounds log_result : ℕ) → log_result ≤ rounds → reduce rounds log_result ≡ log_result % 255
unfolding reduce
reduce-mod zero n h = omega (arith, h)
reduce-mod (suc rounds) n h = elim (Bool-cases (leb 255 n)) [
  | inl more ↦ rw more (reduce-mod rounds (n - 255) (omega (arith, h)) ∙ back (ground arith))
  | inr done ↦ rw done (fits (ground arith))
]
  where
    back : 255 ≤ n → (n - 255) % 255 ≡ n % 255
    back above = omega (arith, above)

    fits : n < 255 → n ≡ n % 255
    fits below = omega (arith, below)

pub exp_one : lookup exp_table 0 ≡ 1
unfolding exp_table gen_exp_table log_table gen_log_table
exp_one = refl

suc_positive : (n : ℕ) → (suc n == 0) ≡ false
suc_positive n = ground arith

exp-zero_suc : (n : ℕ) → exp 0 (suc n) ≡ 0
unfolding exp
exp-zero_suc n = rw (suc_positive n) refl

exp-power :
    (a n : ℕ)
    → 0 < a
    → lookup log_table a * n < 2 ^ 64
    → exp a n ≡ lookup exp_table ((lookup log_table a * n) % 255)
unfolding exp
exp-power a zero positive fits =
    sym exp_one ∙ ap (λ n. lookup exp_table (n % 255)) (sym (mul-zero (lookup log_table a)))
exp-power a (suc n) positive fits =
    rw (suc_positive n, some_a, whole)
      (ap (lookup exp_table)
        (reduce-mod (lookup log_table a * suc n) (lookup log_table a * suc n) (omega arith)))
  where
    some_a : (a == 0) ≡ false
    some_a = ground arith

    whole : (lookup log_table a * suc n) % 2 ^ 64 ≡ lookup log_table a * suc n
    whole = omega (arith, fits)

-- The product of a logarithm and a number below 2 ^ 56 fits.
log-fits : (a n : ℕ) → 0 < a → a < 256 → n ≤ 2 ^ 56 → lookup log_table a * n < 2 ^ 64
log-fits a n positive byte small = omega (arith, mul-le-mul_right n below, small)
  where
    below : lookup log_table a ≤ 255
    below = omega (arith, log_below a positive byte)

exp-suc_positive : (a n : ℕ) → 0 < a → a < 256 → n < 2 ^ 56 → exp a (suc n) ≡ mul a (exp a n)
exp-suc_positive a n positive byte bound =
    exp-power a (suc n) positive (log-fits a (suc n) positive byte (omega (arith, bound)))
    ∙ ap (lookup exp_table)
        (step (lookup log_table a) (lookup log_table a * n) (mul-suc (lookup log_table a) n))
    ∙ sym (
        mul-exp a power positive byte (exp_positive _ small) (exp_byte _ small)
        ∙ ap (λ l. lookup exp_table ((lookup log_table a + l) % 255)) (log-exp _ small))
    ∙ ap (mul a) (sym (exp-power a n positive (log-fits a n positive byte (omega (arith, bound)))))
  where
    power : ℕ
    power = lookup exp_table ((lookup log_table a * n) % 255)

    small : (lookup log_table a * n) % 255 < 255
    small = omega arith

    step : (l m : ℕ) {k : ℕ} → k ≡ m + l → k % 255 ≡ (l + m % 255) % 255
    step l m e = omega (arith, e)

exp-zero : (a : ℕ) → exp a 0 ≡ 1
unfolding exp
exp-zero a = refl

exp_byte_always : (a n : ℕ) → a < 256 → n < 2 ^ 56 → exp a n < 256
exp_byte_always a n byte bound = elim (zero_or_positive a) [
  | inr positive ↦
      subst (λ x. x < 256)
        (sym (exp-power a n positive (log-fits a n positive byte (omega (arith, bound)))))
        (exp_byte _ (omega arith))
  | inl none_a ↦ subst (λ x. exp x n < 256) (sym none_a) (of_zero n)
]
  where
    of_zero : (n : ℕ) → exp 0 n < 256
    of_zero zero = subst (λ x. x < 256) (sym (exp-zero 0)) (omega arith)
    of_zero (suc n) = subst (λ x. x < 256) (sym (exp-zero_suc n)) (omega arith)

-- For exponents below 2 ^ 56, with which the product of a logarithm and the exponent does not wrap
-- around: the loop of `exp` ends with the remainder, and `exp` is the repeated product: the power of
-- 0 is 1, and a step of the exponent multiplies by the base.
pub exp-mul :
    (a n : ℕ)
    → a < 256
    → n < 2 ^ 56
    → (exp a 0 ≡ 1)
      × (exp a (suc n) ≡ mul a (exp a n))
      × (reduce (lookup log_table a * n) (lookup log_table a * n) ≡ (lookup log_table a * n) % 255)
      × (exp a n < 256)
exp-mul a n byte bound =
    (exp-zero a, next, reduce-mod _ _ (omega arith), exp_byte_always a n byte bound)
  where
    next : exp a (suc n) ≡ mul a (exp a n)
    next = elim (zero_or_positive a) [
      | inr positive ↦ exp-suc_positive a n positive byte bound
      | inl none_a ↦
          rw none_a (
            exp-zero_suc n
            ∙ sym (mul_zero_left (exp 0 n) (exp_byte_always 0 n (omega arith) bound)))
    ]
