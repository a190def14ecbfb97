-- ===== src/Dht/RoutingTable/Laws.antt =====
-- The routing table is a map from identities to addresses whose keys ascend.
use onion_network.Base.{
  ℕ, ◌<◌, ◌≤◌, ◌≡◌, refl, Option, none, some, true, false, List, [], ◌∷◌, All, ltb, ltb→lt, ◌==◌,
  ==_iff, Bool-cases, inl, inr, arith, if◌then◌else◌,
}
use onion_network.Dht.RoutingTable.{
  binary_search, insert_at, remove_at, Route, key_of, insert, remove, get,
}

module _ {A : Type 0} where
  -- The identities ascend.
  abbrev pub IsSorted : List (Route A) → Type 0
  IsSorted [] = Unit
  IsSorted (r ∷ rs) = All (λ s. r.id < s.id) rs × IsSorted rs

  -- `insert`, `get` and `remove` without places.
  pub put : Route A → List (Route A) → List (Route A)
  put route [] = route ∷ []
  put route (r ∷ rs) =
      let rest = put route rs in
      if ltb r.id route.id
      then r ∷ rest
      else if r.id == route.id
      then route ∷ rs
      else route ∷ r ∷ rs

  unfoldable pub find : ℕ → List (Route A) → Option A
  find id [] = none
  find id (r ∷ rs) =
      let rest = find id rs in
      if ltb r.id id then rest else if r.id == id then some r.addr else none

  insert_below :
      (route r : Route A) (rs : List (Route A))
      → ltb r.id route.id ≡ true
      → insert route (r ∷ rs) ≡ r ∷ insert route rs
  unfolding insert binary_search insert_at
  insert_below route r rs below = elim (Bool-cases (binary_search key_of route.id rs).0) [
    | inl there ↦ rw (below, there) refl
    | inr absent ↦ rw (below, absent) refl
  ]

  get_below :
      (id : ℕ) (r : Route A) (rs : List (Route A))
      → ltb r.id id ≡ true
      → get id (r ∷ rs) ≡ get id rs
  unfolding get binary_search
  get_below id r rs below = elim (Bool-cases (binary_search key_of id rs).0) [
    | inl there ↦ rw (below, there) refl
    | inr absent ↦ rw (below, absent) refl
  ]

  remove_below :
      (id : ℕ) (r : Route A) (rs : List (Route A))
      → ltb r.id id ≡ true
      → remove id (r ∷ rs) ≡ (r ∷ (remove id rs).0, (remove id rs).1)
  unfolding remove binary_search remove_at
  remove_below id r rs below = elim (Bool-cases (binary_search key_of id rs).0) [
    | inl there ↦ rw (below, there) refl
    | inr absent ↦ rw (below, absent) refl
  ]

  insert_here :
      (route r : Route A) (rs : List (Route A))
      → ltb r.id route.id ≡ false
      → insert route (r ∷ rs) ≡ (if r.id == route.id then route ∷ rs else route ∷ r ∷ rs)
  unfolding insert binary_search insert_at
  insert_here route r rs here = elim (Bool-cases (r.id == route.id)) [
    | inl same ↦ rw (here, same) refl
    | inr other ↦ rw (here, other) refl
  ]

  pub insert-put : (route : Route A) (t : List (Route A)) → insert route t ≡ put route t
  unfolding put
  insert-put route [] = unfold insert binary_search insert_at in refl
  insert-put route (r ∷ rs) = elim (Bool-cases (ltb r.id route.id)) [
    | inl below ↦ rw (insert_below route r rs below, below, insert-put route rs) refl
    | inr here ↦ rw (here, insert_here route r rs here) refl
  ]

  get_here :
      (id : ℕ) (r : Route A) (rs : List (Route A))
      → ltb r.id id ≡ false
      → get id (r ∷ rs) ≡ (if r.id == id then some r.addr else none)
  unfolding get binary_search
  get_here id r rs here = elim (Bool-cases (r.id == id)) [
    | inl same ↦ rw (here, same) refl
    | inr other ↦ rw (here, other) refl
  ]

  pub get-find : (id : ℕ) (t : List (Route A)) → get id t ≡ find id t
  unfolding find
  get-find id [] = unfold get binary_search in refl
  get-find id (r ∷ rs) = elim (Bool-cases (ltb r.id id)) [
    | inl below ↦ rw (get_below id r rs below, below) (get-find id rs)
    | inr here ↦ rw (here, get_here id r rs here) refl
  ]

  pub find-put :
      (id : ℕ) (route : Route A) (t : List (Route A))
      → IsSorted t
      → find id (put route t) ≡ (if route.id == id then some route.addr else find id t)
  unfolding find put
  find-put id route [] s = ground arith
  find-put id route (r ∷ rs) (above, s) = let rest = find-put id route rs s in ground arith

  pub All-above :
      (id k : ℕ) (t : List (Route A)) → k ≤ id → All (λ s. id < s.id) t → All (λ s. k < s.id) t
  All-above id k [] h a = tt
  All-above id k (s ∷ t) h (a, more) = (omega arith, All-above id k t h more)

  All-put :
      (k : ℕ) (route : Route A) (t : List (Route A))
      → k < route.id
      → All (λ s. k < s.id) t
      → All (λ s. k < s.id) (put route t)
  unfolding put
  All-put k route [] h a = (h, tt)
  All-put k route (r ∷ rs) h (a, more) = elim (Bool-cases (ltb r.id route.id)) [
    | inl below ↦ rw below (a, All-put k route rs h more)
    | inr here ↦ elim (Bool-cases (r.id == route.id)) [
      | inl same ↦ rw (here, same) (h, more)
      | inr other ↦ rw (here, other) (h, (a, more))
    ]
  ]

  pub put-IsSorted : (route : Route A) (t : List (Route A)) → IsSorted t → IsSorted (put route t)
  unfolding put
  put-IsSorted route [] s = (tt, tt)
  put-IsSorted route (r ∷ rs) (above, s) = elim (Bool-cases (ltb r.id route.id)) [
    | inl below ↦ rw below (All-put r.id route rs (ltb→lt _ _ below) above, put-IsSorted route rs s)
    | inr here ↦ elim (Bool-cases (r.id == route.id)) [
      | inl same ↦
          let at : r.id ≡ route.id = (==_iff _ _).0 same in
          rw (here, same) (All-above r.id route.id rs (omega arith) above, s)
      | inr other ↦
          let less : route.id < r.id = ground arith in
          rw (here, other) ((less, All-above r.id route.id rs (omega arith) above), (above, s))
    ]
  ]

  -- On a table with ascending identities, after `insert` the address of the route is found under its
  -- identity and every other identity finds what it found before, and the identities ascend.
  pub get-insert :
      (id : ℕ) (route : Route A) (t : List (Route A))
      → IsSorted t
      → (get id (insert route t) ≡ (if route.id == id then some route.addr else get id t))
        × IsSorted (insert route t)
  get-insert id route t s =
      rw (insert-put route t, get-find id (put route t), get-find id t)
        (find-put id route t s, put-IsSorted route t s)
