-- ===== src/Storage/Granted.antt =====
-- storage/satelite/src/storage.rs: what `allocate_file` leaves where it grants a file.
use onion_network.Base.{
  ℕ, ◌+◌, ◌-◌, ◌^◌, ◌<◌, ◌≡◌, Option, none, some, List, length, map, get_elem?, All,
}
use onion_network.Storage.Nodes.{NodeProfile, NodeProfiles, Returned, returned, panicked}
use onion_network.Storage.Files.{Allocated, minus}

-- An entry of the index of free space.
abbrev pub Has : ℕ × ℕ → List (ℕ × ℕ) → Type 0
Has e index = (i : ℕ) × (get_elem? index i ≡ some e)

-- The entries of which a piece was taken.
abbrev lowered : ℕ → List (ℕ × ℕ) → List (ℕ × ℕ)
lowered piece index = map (λ e. (minus (e.0) piece, e.1)) index

-- Every entry names one of so many records.
abbrev pub InRange : ℕ → List (ℕ × ℕ) → Type 0
InRange n index = All (λ e. e.1 < n) index

-- The pieces are taken, and the records stay as many.
abbrev IsLowered : ℕ → ℕ → List (ℕ × ℕ) → Returned (List (ℕ × ℕ) × List NodeProfile) → Type 0
IsLowered n piece index panicked = ⊥
IsLowered n piece index (returned (left, records)) =
    (left ≡ lowered piece index) × (length records ≡ n)

abbrev DoesReturn : Returned (List ℕ × List NodeProfile) → Type 0
DoesReturn panicked = ⊥
DoesReturn (returned x) = Unit

-- A node that had less than a piece, and for which more than it had is entered afterwards.
abbrev pub IsOverdrawn : ℕ → List (ℕ × ℕ) → List (ℕ × ℕ) → Type 0
IsOverdrawn piece before after =
    (free : ℕ) × (id : ℕ) × (free < piece)
    × Has (free, id) before
    × Has (free + (2 ^ 64 - piece), id) after

-- Of an allocation, which does not panic: nothing changes, or a node is overdrawn.
abbrev pub OverdrawsOrRefuses :
    ℕ → NodeProfiles → Returned (Option Allocated × NodeProfiles) → Type 0
OverdrawsOrRefuses piece p panicked = ⊥
OverdrawsOrRefuses piece p (returned (none, after)) = after ≡ p
OverdrawsOrRefuses piece p (returned (some file, after)) =
    IsOverdrawn piece p.free_space_index after.free_space_index
