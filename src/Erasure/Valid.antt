-- ===== src/Erasure/Valid.antt =====
-- storage/berkleamp-welch/build.rs: the tables of logarithms and powers are inverse to each other,
-- which is computed.
use mathlib.Core.Path.{subst}
use onion_network.Base.{
  ℕ, zero, suc, ◌+◌, ◌-◌, ◌%◌, ◌<◌, ◌≤◌, ◌≡◌, ◌≢◌, ◌⊎◌, inl, inr, refl, ap, ◌∙◌, ltb→lt, ==_iff,
  Bool, true, false, ◌&&◌, List, all, ltb, ◌==◌, arith,
}
use onion_network.Erasure.Tables.{
  range, lookup, gen_log_table, gen_exp_table, gen_inv_table, log_table, exp_table, inv_table,
}

abbrev is_inverse : List ℕ → List ℕ → List ℕ → ℕ → Bool
is_inverse log exp inv a =
    ltb (lookup log a) 255
    && (lookup exp (lookup log a) == a)
    && (lookup inv a == lookup exp (255 - lookup log a))

abbrev is_power : List ℕ → List ℕ → ℕ → Bool
is_power log exp i =
    ltb 0 (lookup exp i)
    && ltb (lookup exp i) 256
    && (lookup log (lookup exp i) == i)
    && (lookup exp (i + 255) == lookup exp i)

unfoldable are_valid : List ℕ → List ℕ → List ℕ → Bool
are_valid log exp inv =
    all (is_inverse log exp inv) (range 1 255) && all (is_power log exp) (range 0 255)

tables-valid : are_valid log_table exp_table inv_table ≡ true
unfolding are_valid log_table exp_table inv_table gen_log_table gen_exp_table gen_inv_table
tables-valid = refl

&&_both : {a b : Bool} → (a && b) ≡ true → (a ≡ true) × (b ≡ true)
&&_both {a = true} h = (refl, h)
&&_both {a = false} h = absurd (ground arith)

same_or_not : (a b : ℕ) → (a ≡ b) ⊎ (a ≢ b)
same_or_not a b = ground arith

all-range :
    (p : ℕ → Bool) (first n i : ℕ)
    → all p (range first n) ≡ true
    → first ≤ i
    → i < first + n
    → p i ≡ true
all-range p first zero i h low high = absurd (omega (arith, low, high))
all-range p first (suc n) i h low high = elim (same_or_not first i) [
  | inl same ↦ subst (λ j. p j ≡ true) same ((&&_both h).0)
  | inr other ↦
      all-range p (suc first) n i ((&&_both h).1) (omega (arith, low, other)) (omega (arith, high))
]

inverse-at : (a : ℕ) → 0 < a → a < 256 → is_inverse log_table exp_table inv_table a ≡ true
unfolding are_valid
inverse-at a positive byte =
    all-range (is_inverse log_table exp_table inv_table) 1 255 a ((&&_both tables-valid).0)
      (omega (arith, positive)) (omega (arith, byte))

power-at : (i : ℕ) → i < 255 → is_power log_table exp_table i ≡ true
unfolding are_valid
power-at i small =
    all-range (is_power log_table exp_table) 0 255 i ((&&_both tables-valid).1) (omega arith)
      (omega (arith, small))

==_path : {a b : ℕ} → (a == b) ≡ true → a ≡ b
==_path {a} {b} h = (==_iff a b).0 h

-- The facts that the tables are checked for.
module _ (a : ℕ) (positive : 0 < a) (byte : a < 256) where
  pub log_below : lookup log_table a < 255
  log_below = ltb→lt _ 255 ((&&_both ((&&_both (inverse-at a positive byte)).0)).0)

  pub exp-log : lookup exp_table (lookup log_table a) ≡ a
  exp-log = ==_path ((&&_both ((&&_both (inverse-at a positive byte)).0)).1)

  pub inv-exp : lookup inv_table a ≡ lookup exp_table (255 - lookup log_table a)
  inv-exp = ==_path ((&&_both (inverse-at a positive byte)).1)

module _ (i : ℕ) (small : i < 255) where
  pub exp_positive : 0 < lookup exp_table i
  exp_positive = ltb→lt 0 _ ((&&_both ((&&_both ((&&_both (power-at i small)).0)).0)).0)

  pub exp_byte : lookup exp_table i < 256
  exp_byte = ltb→lt _ 256 ((&&_both ((&&_both ((&&_both (power-at i small)).0)).0)).1)

  pub log-exp : lookup log_table (lookup exp_table i) ≡ i
  log-exp = ==_path ((&&_both ((&&_both (power-at i small)).0)).1)

  pub exp_period : lookup exp_table (i + 255) ≡ lookup exp_table i
  exp_period = ==_path ((&&_both (power-at i small)).1)

pub exp_mod : (i : ℕ) → i < 510 → lookup exp_table i ≡ lookup exp_table (i % 255)
exp_mod i small = elim (small_or_large i) [
  | inl below ↦ ap (lookup exp_table) (omega (arith, below))
  | inr above ↦
      ap (lookup exp_table) (back above)
      ∙ exp_period (i - 255) (omega (arith, small, above))
      ∙ ap (lookup exp_table) (omega (arith, small, above))
]
  where
    small_or_large : (i : ℕ) → (i < 255) ⊎ (255 ≤ i)
    small_or_large i = ground arith

    back : 255 ≤ i → i ≡ (i - 255) + 255
    back h = omega (arith, h)
