-- ===== src/Erasure/Field.antt =====
-- storage/berkleamp-welch/src/galois.rs: products, quotients and powers of the field.
use mathlib.Core.Path.{subst}
use onion_network.Base.{
  ℕ, zero, suc, ◌+◌, ◌%◌, ◌<◌, ◌≡◌, ◌⊎◌, inl, inr, refl, sym, ap, ◌∙◌, Bool, true, false, List, map,
  ◌==◌, ◌||◌, if◌then◌else◌, arith,
}
use onion_network.Erasure.Tables.{
  range, lookup, row, multiply, log_table, exp_table, mul_table, gen_mul_table, gen_log_table,
}
use onion_network.Erasure.Galois.{mul}
use onion_network.Erasure.Valid.{log_below, exp-log, exp_positive, exp_byte, log-exp, exp_mod}

row-map : (f : ℕ → List ℕ) (first n i : ℕ) → i < n → row (map f (range first n)) i ≡ f (first + i)
row-map f first zero i h = absurd (omega (arith, h))
row-map f first (suc n) zero h = ap f (omega arith)
row-map f first (suc n) (suc i) h =
    row-map f (suc first) n i (omega (arith, h)) ∙ ap f (omega arith)

lookup-map : (f : ℕ → ℕ) (first n i : ℕ) → i < n → lookup (map f (range first n)) i ≡ f (first + i)
lookup-map f first zero i h = absurd (omega (arith, h))
lookup-map f first (suc n) zero h = ap f (omega arith)
lookup-map f first (suc n) (suc i) h =
    lookup-map f (suc first) n i (omega (arith, h)) ∙ ap f (omega arith)

-- The table of products holds them.
mul-multiply : (a b : ℕ) → a < 256 → b < 256 → mul a b ≡ multiply log_table exp_table a b
unfolding mul mul_table gen_mul_table
mul-multiply a b byte_a byte_b =
    ap (λ r. lookup r b)
      (row-map (λ a. map (λ b. multiply log_table exp_table a b) (range 0 256)) 0 256 a byte_a)
    ∙ lookup-map (λ b. multiply log_table exp_table (0 + a) b) 0 256 b byte_b
    ∙ ap (λ n. multiply log_table exp_table n (0 + b)) zero_plus
    ∙ ap (multiply log_table exp_table a) zero_plus
  where
    zero_plus : {n : ℕ} → 0 + n ≡ n
    zero_plus = omega arith

pub zero_or_positive : (a : ℕ) → (a ≡ 0) ⊎ (0 < a)
zero_or_positive a = ground arith

pub mul_zero_left : (b : ℕ) → b < 256 → mul 0 b ≡ 0
mul_zero_left b byte = mul-multiply 0 b (omega arith) byte

pub mul_zero_right : (a : ℕ) → a < 256 → mul a 0 ≡ 0
mul_zero_right a byte = mul-multiply a 0 byte (omega arith) ∙ go (a == 0)
  where
    go :
        (b : Bool)
        → (if b || true then 0 else lookup exp_table (lookup log_table a + lookup log_table 0)) ≡ 0
    go true = refl
    go false = refl

module _ (a b : ℕ) (positive_a : 0 < a) (byte_a : a < 256) (positive_b : 0 < b)
    (byte_b : b < 256) where
  pub mul-exp : mul a b ≡ lookup exp_table ((lookup log_table a + lookup log_table b) % 255)
  mul-exp =
      mul-multiply a b byte_a byte_b
      ∙ rw (some_a, some_b)
          (exp_mod (lookup log_table a + lookup log_table b)
            (omega (arith, log_below a positive_a byte_a, log_below b positive_b byte_b)))
    where
      some_a : (a == 0) ≡ false
      some_a = ground arith

      some_b : (b == 0) ≡ false
      some_b = ground arith

  log_sum_below : (lookup log_table a + lookup log_table b) % 255 < 255
  log_sum_below = omega arith

  pub mul_positive : 0 < mul a b
  mul_positive = subst (λ n. 0 < n) (sym mul-exp) (exp_positive _ log_sum_below)

  pub mul_byte : mul a b < 256
  mul_byte = subst (λ n. n < 256) (sym mul-exp) (exp_byte _ log_sum_below)

  pub log-mul : lookup log_table (mul a b) ≡ (lookup log_table a + lookup log_table b) % 255
  log-mul = ap (lookup log_table) mul-exp ∙ log-exp _ log_sum_below

pub mul_byte_always : (a b : ℕ) → a < 256 → b < 256 → mul a b < 256
mul_byte_always a b byte_a byte_b = elim (zero_or_positive a) [
  | inl none_a ↦
      subst (λ n. mul n b < 256) (sym none_a)
        (subst (λ n. n < 256) (sym (mul_zero_left b byte_b)) (omega arith))
  | inr some_a ↦ elim (zero_or_positive b) [
    | inl none_b ↦
        subst (λ n. mul a n < 256) (sym none_b)
          (subst (λ n. n < 256) (sym (mul_zero_right a byte_a)) (omega arith))
    | inr some_b ↦ mul_byte a b some_a byte_a some_b byte_b
  ]
]

pub mul_comm : (a b : ℕ) → a < 256 → b < 256 → mul a b ≡ mul b a
mul_comm a b byte_a byte_b = elim (zero_or_positive a) [
  | inl none_a ↦ rw none_a (mul_zero_left b byte_b ∙ sym (mul_zero_right b byte_b))
  | inr some_a ↦ elim (zero_or_positive b) [
    | inl none_b ↦ rw none_b (mul_zero_right a byte_a ∙ sym (mul_zero_left a byte_a))
    | inr some_b ↦
        mul-exp a b some_a byte_a some_b byte_b
        ∙ ap (λ n. lookup exp_table (n % 255)) (omega arith)
        ∙ sym (mul-exp b a some_b byte_b some_a byte_a)
  ]
]

pub log_one : lookup log_table 1 ≡ 0
unfolding log_table gen_log_table
log_one = refl

pub mul_one : (a : ℕ) → a < 256 → mul 1 a ≡ a
mul_one a byte = elim (zero_or_positive a) [
  | inl none_a ↦ rw none_a (mul_zero_right 1 (omega arith))
  | inr some_a ↦
      mul-exp 1 a (omega arith) (omega arith) some_a byte
      ∙ ap (lookup exp_table) (omega (arith, log_one, log_below a some_a byte))
      ∙ exp-log a some_a byte
]

mul_assoc_positive :
    (a b c : ℕ)
    → 0 < a
    → a < 256
    → 0 < b
    → b < 256
    → 0 < c
    → c < 256
    → mul (mul a b) c ≡ mul a (mul b c)
mul_assoc_positive a b c pa ba pb bb pc bc =
    mul-exp (mul a b) c (mul_positive a b pa ba pb bb) (mul_byte a b pa ba pb bb) pc bc
    ∙ ap (lookup exp_table) (omega (arith, log-mul a b pa ba pb bb, log-mul b c pb bb pc bc))
    ∙ sym (mul-exp a (mul b c) pa ba (mul_positive b c pb bb pc bc) (mul_byte b c pb bb pc bc))

pub mul_assoc : (a b c : ℕ) → a < 256 → b < 256 → c < 256 → mul (mul a b) c ≡ mul a (mul b c)
mul_assoc a b c ba bb bc = elim (zero_or_positive a) [
  | inl none_a ↦
      rw (none_a, mul_zero_left b bb, mul_zero_left c bc)
        (sym (mul_zero_left (mul b c) (mul_byte_always b c bb bc)))
  | inr pa ↦ elim (zero_or_positive b) [
    | inl none_b ↦ rw (none_b, mul_zero_right a ba, mul_zero_left c bc) (sym (mul_zero_right a ba))
    | inr pb ↦ elim (zero_or_positive c) [
      | inl none_c ↦
          rw (none_c, mul_zero_right b bb, mul_zero_right a ba)
            (mul_zero_right (mul a b) (mul_byte_always a b ba bb))
      | inr pc ↦ mul_assoc_positive a b c pa ba pb bb pc bc
    ]
  ]
]

-- The bytes with this product are a commutative monoid whose unit is 1, and 0 absorbs.
pub mul_monoid :
    (a b c : ℕ)
    → a < 256
    → b < 256
    → c < 256
    → (mul (mul a b) c ≡ mul a (mul b c))
      × (mul a b ≡ mul b a)
      × (mul 1 a ≡ a)
      × (mul 0 a ≡ 0)
      × (mul a b < 256)
mul_monoid a b c byte_a byte_b byte_c = (
  mul_assoc a b c byte_a byte_b byte_c,
  mul_comm a b byte_a byte_b,
  mul_one a byte_a,
  mul_zero_left a byte_a,
  mul_byte_always a b byte_a byte_b,
)
