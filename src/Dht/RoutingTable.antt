-- ===== src/Dht/RoutingTable.antt =====
-- protocols/dht/src/lib.rs: `RoutingTable`. An identity is a 256-bit number, whose exclusive or is a
-- parameter, and so are the addresses. A key of `closest` is hashed already.
pub mod Laws
pub mod Removal
use onion_network.Base.Opt.{◌>>=◌}
use onion_network.Base.{
  ℕ, zero, suc, ◌-◌, Option, none, some, Bool, true, false, List, [], ◌∷◌, ◌++◌, map, length,
  get_elem?, set, take, drop, ltb, leb, ◌==◌, if◌then◌else◌,
}

-- `binary_search_by_key` of a slice with ascending keys: whether the key is there, and the place of
-- it or the place where it would stand.
unfoldable pub binary_search {ℓ} : {T : Type ℓ} → (T → ℕ) → ℕ → List T → Bool × ℕ
binary_search key k [] = (false, 0)
binary_search key k (x ∷ xs) =
    let rest = binary_search key k xs in
    if ltb (key x) k then (rest.0, suc rest.1) else (key x == k, 0)

-- `Vec::insert` and `Vec::remove` at a place that is there.
unfoldable pub insert_at {ℓ} : {T : Type ℓ} → ℕ → T → List T → List T
insert_at zero y xs = y ∷ xs
insert_at (suc i) y [] = y ∷ []
insert_at (suc i) y (x ∷ xs) = x ∷ insert_at i y xs

unfoldable pub remove_at {ℓ} : {T : Type ℓ} → ℕ → List T → List T
remove_at i [] = []
remove_at zero (x ∷ xs) = xs
remove_at (suc i) (x ∷ xs) = x ∷ remove_at i xs

-- `sort_unstable_by_key`
unfoldable pub sorted_insert {ℓ} : {T : Type ℓ} → (T → ℕ) → T → List T → List T
sorted_insert key y [] = y ∷ []
sorted_insert key y (x ∷ xs) =
    let rest = sorted_insert key y xs in if ltb (key x) (key y) then x ∷ rest else y ∷ x ∷ xs

unfoldable pub sort_by_key {ℓ} : {T : Type ℓ} → (T → ℕ) → List T → List T
sort_by_key key [] = []
sort_by_key key (x ∷ xs) = sorted_insert key x (sort_by_key key xs)

pub record Route (A : Type 0) : Type 0 where
  pub id : ℕ
  pub addr : A

module _ {A : Type 0} where
  abbrev pub key_of : Route A → ℕ
  key_of r = r.id

  -- `none` is the failed assertion that the table is empty.
  unfoldable pub bulk_insert : List (Route A) → List (Route A) → Option (List (Route A))
  unfolding sort_by_key
  bulk_insert routes [] = some (sort_by_key key_of routes)
  bulk_insert routes (r ∷ table) = none

  unfoldable pub insert : Route A → List (Route A) → List (Route A)
  unfolding binary_search insert_at
  insert route table =
      let (present, index) = binary_search key_of route.id table in
      if present then set table index route else insert_at index route table

  unfoldable pub remove : ℕ → List (Route A) → List (Route A) × Option (Route A)
  unfolding binary_search remove_at
  remove id table =
      let (present, index) = binary_search key_of id table in
      if present then (remove_at index table, get_elem? table index) else (table, none)

  unfoldable pub get : ℕ → List (Route A) → Option A
  unfolding binary_search
  get id table =
      let (present, index) = binary_search key_of id table in
      if present then (get_elem? table index >>= λ r. some r.addr) else none

module _ (xor : ℕ → ℕ → ℕ) where
  -- The loop of `closest` over the rest of the table: a route that is nearer than the last slot
  -- takes its place among the slots. `none` is `unwrap` of no slot.
  unfoldable pub closest_loop : ℕ → List ℕ → List ℕ → Option (List ℕ)
  closest_loop key slots [] = some slots
  closest_loop key slots (id ∷ ids) =
      let kept = take (length slots - 1) slots in
      let point = (binary_search (λ slot. xor slot key) (xor id key) kept).1 in
      let skip = closest_loop key slots ids in
      let next = closest_loop key (insert_at point id kept) ids in
      elim (get_elem? slots (length slots - 1)) [
        | none ↦ none
        | some last ↦ if leb (xor last key) (xor id key) then skip else next
      ]

  unfoldable pub closest : {A : Type 0} → ℕ → ℕ → List (Route A) → Option (List ℕ)
  unfolding closest_loop
  closest count key table =
      let ids = map (λ r. r.id) table in
      closest_loop key (sort_by_key (λ id. xor id key) (take count ids)) (drop count ids)
