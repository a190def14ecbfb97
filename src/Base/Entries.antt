-- ===== src/Base/Entries.antt =====
-- A hash map as the list of its entries in the order of iteration, by the key that a number is.
use Prim.Native.Nat.{ℕ, ◌+◌}
use mathlib.Core.Path.{◌≡◌, refl, sym, ◌∙◌}
use mathlib.Core.Logic.{◌≢◌, inl, inr}
use mathlib.Core.Bool.{false}
use mathlib.Core.Option.{Option, none, some}
use mathlib.Core.List.{List, [], ◌∷◌}
use native.Mathlib.Omega.{arith}
use onion_network.Base.Tests.{◌==◌, if◌then◌else◌, Bool-cases, ==_refl, ==_iff}

module _ {ℓ} {V : Type ℓ} where
  abbrev pub find_key : ℕ → List (ℕ × V) → Option V
  find_key k [] = none
  find_key k ((j, v) ∷ m) = let rest = find_key k m in if j == k then some v else rest

  -- The value of a key that is there is replaced in its place.
  abbrev pub insert_key : ℕ → V → List (ℕ × V) → List (ℕ × V)
  insert_key k v [] = (k, v) ∷ []
  insert_key k v ((j, u) ∷ m) =
      let rest = insert_key k v m in if j == k then (j, v) ∷ m else (j, u) ∷ rest

  abbrev pub remove_key : ℕ → List (ℕ × V) → List (ℕ × V)
  remove_key k [] = []
  remove_key k ((j, u) ∷ m) = let rest = remove_key k m in if j == k then m else (j, u) ∷ rest

  -- The sum of what a function gives for the entries, and for an entry that may be missing.
  abbrev pub weigh : (ℕ → V → ℕ) → List (ℕ × V) → ℕ
  weigh w [] = 0
  weigh w ((j, u) ∷ m) = w j u + weigh w m

  abbrev pub weigh_found : (ℕ → V → ℕ) → ℕ → Option V → ℕ
  weigh_found w k none = 0
  weigh_found w k (some v) = w k v

not_same : (j k : ℕ) → j ≢ k → (j == k) ≡ false
not_same j k apart = ground arith

module _ {ℓ} {V : Type ℓ} where
  pub find_key-insert_key :
      (k : ℕ) (v : V) (m : List (ℕ × V)) → find_key k (insert_key k v m) ≡ some v
  find_key-insert_key k v [] = rw (==_refl k) refl
  find_key-insert_key k v ((j, u) ∷ m) = elim (Bool-cases (j == k)) [
    | inl same ↦ rw (same, same) refl
    | inr other ↦ rw (other, other) (find_key-insert_key k v m)
  ]

  pub find_key-insert_key_other :
      (k i : ℕ) (v : V) (m : List (ℕ × V)) → k ≢ i → find_key i (insert_key k v m) ≡ find_key i m
  find_key-insert_key_other k i v [] apart = rw (not_same k i apart) refl
  find_key-insert_key_other k i v ((j, u) ∷ m) apart = elim (Bool-cases (j == k)) [
    | inl same ↦ rw (same, not_same j i (λ e. apart (sym ((==_iff j k).0 same) ∙ e))) refl
    | inr other ↦ rw other (elim (Bool-cases (j == i)) [
      | inl here ↦ rw here refl
      | inr there ↦ rw there (find_key-insert_key_other k i v m apart)
    ])
  ]

  pub find_key-remove_key_other :
      (k i : ℕ) (m : List (ℕ × V)) → k ≢ i → find_key i (remove_key k m) ≡ find_key i m
  find_key-remove_key_other k i [] apart = refl
  find_key-remove_key_other k i ((j, u) ∷ m) apart = elim (Bool-cases (j == k)) [
    | inl same ↦ rw (same, not_same j i (λ e. apart (sym ((==_iff j k).0 same) ∙ e))) refl
    | inr other ↦ rw other (elim (Bool-cases (j == i)) [
      | inl here ↦ rw here refl
      | inr there ↦ rw there (find_key-remove_key_other k i m apart)
    ])
  ]

  pub weigh-insert_key :
      (w : ℕ → V → ℕ) (k : ℕ) (v : V) (m : List (ℕ × V))
      → weigh w (insert_key k v m) + weigh_found w k (find_key k m) ≡ weigh w m + w k v
  weigh-insert_key w k v [] = omega arith
  weigh-insert_key w k v ((j, u) ∷ m) = elim (Bool-cases (j == k)) [
    | inl same ↦ rw (same, (==_iff j k).0 same) (omega arith)
    | inr other ↦ rw other (omega (arith, weigh-insert_key w k v m))
  ]

  pub weigh-remove_key :
      (w : ℕ → V → ℕ) (k : ℕ) (m : List (ℕ × V))
      → weigh w (remove_key k m) + weigh_found w k (find_key k m) ≡ weigh w m
  weigh-remove_key w k [] = refl
  weigh-remove_key w k ((j, u) ∷ m) = elim (Bool-cases (j == k)) [
    | inl same ↦ rw (same, (==_iff j k).0 same) (omega arith)
    | inr other ↦ rw other (omega (arith, weigh-remove_key w k m))
  ]
