-- ===== src/Chat/Blocks/Finalizer.antt =====
-- chat/server/src/storage/chat.rs: `select_finalizer` names the same node whatever the order in
-- which a replica lists the group.
use mathlib.Core.Path.{ap₂}
use mathlib.Core.List.{Permᴰ}
use mathlib.Core.List.Permᴰ.{nil, cons, swap, trans}
use onion_network.Base.{
  ℕ, suc, ◌<◌, lt→ltb, le→ltb, ◌≡◌, ◌⊎◌, inl, inr, refl, sym, ap, ◌∙◌, true, false, List, [], ◌∷◌,
  length, ltb, Bool-cases, arith,
}
use onion_network.Chat.Blocks.Proposals.{sorted_insert, sort_by_distance, select_finalizer}

module _ (hash : List ℕ → ℕ) (xor : ℕ → ℕ → ℕ) (selector : ℕ)
    (apart : (a b : ℕ) → xor a selector ≡ xor b selector → a ≡ b) where
  abbrev place : ℕ → List ℕ → List ℕ
  place = sorted_insert hash xor selector

  order :
      (a b : ℕ)
      → (xor a selector < xor b selector)
        ⊎ ((xor b selector < xor a selector) ⊎ (xor a selector ≡ xor b selector))
  order a b = ground arith

  less : (a b : ℕ) → xor a selector < xor b selector → ltb (xor a selector) (xor b selector) ≡ true
  less a b h = lt→ltb (xor a selector) (xor b selector) h

  not_less :
      (b a : ℕ) → xor a selector < xor b selector → ltb (xor b selector) (xor a selector) ≡ false
  not_less b a h = le→ltb (xor b selector) (xor a selector) (omega (arith, h))

  place_same : (a b : ℕ) (xs : List ℕ) → a ≡ b → place a (place b xs) ≡ place b (place a xs)
  place_same a b xs same =
      ap (λ c. place c (place b xs)) same ∙ ap (λ c. place b (place c xs)) (sym same)

  place_swap : (a b : ℕ) (xs : List ℕ) → place a (place b xs) ≡ place b (place a xs)
  unfolding sorted_insert
  place_swap a b [] = elim (order a b) [
    | inl before ↦ rw (less a b before, not_less b a before) refl
    | inr (inl after) ↦ rw (less b a after, not_less a b after) refl
    | inr (inr same) ↦ rw (apart a b same) refl
  ]
  place_swap a b (x ∷ xs) = elim (Bool-cases (ltb (xor x selector) (xor a selector))) [
    | inl below_a ↦ elim (Bool-cases (ltb (xor x selector) (xor b selector))) [
      | inl below_b ↦ rw (below_a, below_b, below_a) (ap (λ r. x ∷ r) (place_swap a b xs))
      | inr above_b ↦
          rw (below_a, above_b, less b a (between (xor x selector) _ _ below_a above_b), below_a)
            refl
    ]
    | inr above_a ↦ elim (Bool-cases (ltb (xor x selector) (xor b selector))) [
      | inl below_b ↦
          rw (above_a, below_b, less a b (between (xor x selector) _ _ below_b above_a), above_a)
            refl
      | inr above_b ↦ elim (order a b) [
        | inl before ↦ rw (above_a, above_b, less a b before, not_less b a before) refl
        | inr (inl after) ↦ rw (above_a, above_b, less b a after, not_less a b after, above_a) refl
        | inr (inr same) ↦ place_same a b (x ∷ xs) (apart a b same)
      ]
    ]
  ]
    where
      between : (u v w : ℕ) → ltb u v ≡ true → ltb u w ≡ false → w < v
      between u v w less_v not_less_w = ground arith

  sort_by_distance-Permᴰ :
      (ms ns : List ℕ)
      → Permᴰ ms ns
      → sort_by_distance hash xor selector ms ≡ sort_by_distance hash xor selector ns
  unfolding sort_by_distance
  sort_by_distance-Permᴰ _ _ nil = refl
  sort_by_distance-Permᴰ _ _ (cons same rest) = ap₂ place same (sort_by_distance-Permᴰ _ _ rest)
  sort_by_distance-Permᴰ _ _ (swap {l = l} first second) =
      place_swap _ _ (sort_by_distance hash xor selector l)
      ∙ ap₂ (λ a b. place a (place b (sort_by_distance hash xor selector l))) second first
  sort_by_distance-Permᴰ _ _ (trans p q) =
      sort_by_distance-Permᴰ _ _ p ∙ sort_by_distance-Permᴰ _ _ q

  length-Permᴰ : (ms ns : List ℕ) → Permᴰ ms ns → length ms ≡ length ns
  length-Permᴰ _ _ nil = refl
  length-Permᴰ _ _ (cons same rest) = ap suc (length-Permᴰ _ _ rest)
  length-Permᴰ _ _ (swap first second) = refl
  length-Permᴰ _ _ (trans p q) = length-Permᴰ _ _ p ∙ length-Permᴰ _ _ q

-- Where no two identities have the same distance to the selector, every node of a group chooses
-- the same finalizer of a block, whatever the order in which it lists the group.
pub select_finalizer-Permᴰ :
    (hash : List ℕ → ℕ) (xor : ℕ → ℕ → ℕ) (selector block_len : ℕ) (ms ns : List ℕ)
    → ((a b : ℕ) → xor a selector ≡ xor b selector → a ≡ b)
    → Permᴰ ms ns
    → select_finalizer hash xor selector ms block_len
      ≡ select_finalizer hash xor selector ns block_len
unfolding select_finalizer
select_finalizer-Permᴰ hash xor selector block_len ms ns apart perm =
    rw
      (
        sort_by_distance-Permᴰ hash xor selector apart ms ns perm,
        length-Permᴰ hash xor selector apart ms ns perm,
      )
      refl
