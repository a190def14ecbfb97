-- ===== src/Dht/RoutingTable/Removal.antt =====
-- `remove` takes out the route of an identity and no other.
use onion_network.Base.{
  ℕ, ◌<◌, ◌≡◌, refl, Option, none, some, true, false, List, [], ◌∷◌, All, ltb, ltb→le, ◌==◌,
  Bool-cases, inl, inr, arith, if◌then◌else◌,
}
use onion_network.Base.Opt.{◌>>=◌}
use onion_network.Dht.RoutingTable.{binary_search, remove_at, Route, key_of, remove, get}
use onion_network.Dht.RoutingTable.Laws.{IsSorted, find, get-find, All-above}

module _ {A : Type 0} where
  abbrev pub addr_of : Option (Route A) → Option A
  addr_of o = o >>= λ r. some r.addr

  -- What `remove` leaves, without places.
  cut : ℕ → List (Route A) → List (Route A)
  cut id [] = []
  cut id (r ∷ rs) =
      let rest = cut id rs in if ltb r.id id then r ∷ rest else if r.id == id then rs else r ∷ rs

  remove_below :
      (id : ℕ) (r : Route A) (rs : List (Route A))
      → ltb r.id id ≡ true
      → remove id (r ∷ rs) ≡ (r ∷ (remove id rs).0, (remove id rs).1)
  unfolding remove binary_search remove_at
  remove_below id r rs below = elim (Bool-cases (binary_search key_of id rs).0) [
    | inl there ↦ rw (below, there) refl
    | inr absent ↦ rw (below, absent) refl
  ]

  remove_here :
      (id : ℕ) (r : Route A) (rs : List (Route A))
      → ltb r.id id ≡ false
      → remove id (r ∷ rs) ≡ (if r.id == id then (rs, some r) else (r ∷ rs, none))
  unfolding remove binary_search remove_at
  remove_here id r rs here = elim (Bool-cases (r.id == id)) [
    | inl same ↦ rw (here, same) refl
    | inr other ↦ rw (here, other) refl
  ]

  remove-cut :
      (id : ℕ) (t : List (Route A))
      → ((remove id t).0 ≡ cut id t) × (addr_of (remove id t).1 ≡ find id t)
  unfolding cut find
  remove-cut id [] = unfold remove binary_search in (refl, refl)
  remove-cut id (r ∷ rs) = elim (Bool-cases (ltb r.id id)) [
    | inl below ↦
        let (left, out) = remove-cut id rs in
        rw (remove_below id r rs below, below, left, out) (refl, refl)
    | inr here ↦ elim (Bool-cases (r.id == id)) [
      | inl same ↦ rw (remove_here id r rs here, here, same) (refl, refl)
      | inr other ↦ rw (remove_here id r rs here, here, other) (refl, refl)
    ]
  ]

  find_above : (j : ℕ) (t : List (Route A)) → All (λ s. j < s.id) t → find j t ≡ none
  unfolding find
  find_above j [] a = refl
  find_above j (r ∷ rs) (a, more) = let rest = find_above j rs more in ground arith

  find-cut :
      (id j : ℕ) (t : List (Route A))
      → IsSorted t
      → find j (cut id t) ≡ (if id == j then none else find j t)
  unfolding find cut
  find-cut id j [] s = ground arith
  find-cut id j (r ∷ rs) (above, s) = elim (Bool-cases (ltb r.id id)) [
    | inl below ↦ let rest = find-cut id j rs s in rw below (ground arith)
    | inr here ↦ elim (Bool-cases (r.id == id)) [
      | inl same ↦ elim (Bool-cases (ltb r.id j)) [
        | inl far ↦ rw (here, same, far) (ground arith)
        | inr near ↦
            let none_left = find_above j rs (All-above r.id j rs (ltb→le _ _ near) above) in
            rw (here, same, near) (ground arith)
      ]
      | inr other ↦ rw (here, other) (ground arith)
    ]
  ]

  -- On a table with ascending identities `remove` returns the route whose address `get` finds, or none;
  -- then `get` finds nothing under the identity, and under every other one what it found before.
  pub get-remove :
      (id j : ℕ) (t : List (Route A))
      → IsSorted t
      → (addr_of (remove id t).1 ≡ get id t)
        × (get j (remove id t).0 ≡ (if id == j then none else get j t))
  get-remove id j t s =
      let (left, out) = remove-cut id t in
      rw (left, out, get-find id t, get-find j (cut id t), get-find j t) (refl, find-cut id j t s)
