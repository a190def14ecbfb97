-- ===== src/Storage/Nodes.antt =====
-- storage/satelite/src/storage.rs: `NodeProfiles`, the nodes that a satelite stores files on, and
-- the maps of files and users. Overflows wrap, as they do in a release build.
use onion_network.Base.{
  ℕ, ◌+◌, ◌-◌, ◌*◌, ◌%◌, ◌^◌, Bool, true, false, not, Option, none, some, List, [], ◌∷◌, ◌++◌,
  length, set, get_elem?, ltb, ◌==◌, ◌||◌, if◌then◌else◌,
}
use onion_network.Chat.Members.{advance_to}
use onion_network.Codec.Sum.{SocketAddr}

pub record NodeProfile : Type 0 where
  pub identity : ℕ
  pub pre_identity : ℕ
  pub nonce : ℕ
  pub our_nonce : ℕ
  pub last_requested_gc : ℕ
  pub free_blocks : ℕ
  pub addr : SocketAddr

pub record NodeProfiles : Type 0 where
  pub records : List NodeProfile
  pub identity_to_id : ℕ → Option ℕ
  pub free_space_index : List (ℕ × ℕ)

abbrev pub gc_cooldown : ℕ
gc_cooldown = 60 * 60

-- `as NodeId`
abbrev pub node_id : ℕ → ℕ
node_id i = i % 2 ^ 16

abbrev pub entry_insert : ℕ → ℕ → (ℕ → Option ℕ) → ℕ → Option ℕ
entry_insert k v m j = if k == j then some v else m j

-- Collecting pairs into a map: the last pair of a key stays.
abbrev pub index_identities : ℕ → List NodeProfile → (ℕ → Option ℕ) → ℕ → Option ℕ
index_identities i [] m = m
index_identities i (p ∷ ps) m = index_identities (i + 1) ps (entry_insert p.identity (node_id i) m)

abbrev pub index_space : ℕ → List NodeProfile → List (ℕ × ℕ)
index_space i [] = []
index_space i (p ∷ ps) = (p.free_blocks, node_id i) ∷ index_space (i + 1) ps

-- The value that `decode` makes of the records.
unfoldable pub from_records : List NodeProfile → NodeProfiles
from_records records = record {
  records = records;
  identity_to_id = index_identities 0 records (λ k. none);
  free_space_index = index_space 0 records;
}

abbrev pub new_profile : ℕ → ℕ → SocketAddr → ℕ → NodeProfile
new_profile identity pre_identity addr free_blocks = record {
  identity = identity;
  pre_identity = pre_identity;
  nonce = 0;
  our_nonce = 0;
  last_requested_gc = 0;
  free_blocks = free_blocks;
  addr = addr;
}

-- The record of a new node, and its entries in both maps.
abbrev pub add_profile : NodeProfile → NodeProfiles → NodeProfiles
add_profile profile p =
    let id = node_id (length p.records) in
    record {
      records = p.records ++ (profile ∷ []);
      identity_to_id = entry_insert profile.identity id p.identity_to_id;
      free_space_index = p.free_space_index ++ ((profile.free_blocks, id) ∷ []);
    }

unfoldable pub register_node : ℕ → ℕ → SocketAddr → ℕ → NodeProfiles → Bool × NodeProfiles
register_node identity pre_identity addr free_blocks p = elim (p.identity_to_id identity) [
  | some old ↦ (false, p)
  | none ↦ (true, add_profile (new_profile identity pre_identity addr free_blocks) p)
]

-- A write through the reference to a record.
abbrev pub write : ℕ → NodeProfile → NodeProfiles → NodeProfiles
write id profile p = record p { records = set p.records id profile }

-- What indexing the records gives: an index out of range panics.
pub data Returned (A : Type 0) : Type 0 where
  returned : A → Returned A
  panicked : Returned A

abbrev pub next_nonce : ℕ → ℕ
next_nonce nonce = (nonce + 1) % 2 ^ 64

-- The record of an identity, where it has one.
abbrev pub find_profile :
    {A : Type 0} → ℕ → NodeProfiles → Returned A → (ℕ → NodeProfile → Returned A) → Returned A
find_profile identity p missing f = elim (p.identity_to_id identity) [
  | none ↦ missing
  | some id ↦ elim (get_elem? p.records id) [ none ↦ panicked | some profile ↦ f id profile ]
]

unfoldable pub gc_of : ℕ → ℕ → NodeProfiles → ℕ → NodeProfile → Returned (Option ℕ × NodeProfiles)
gc_of current_time nonce p id profile =
    let elapsed = (current_time + 2 ^ 64 - profile.last_requested_gc) % 2 ^ 64 in
    if ltb elapsed gc_cooldown || not (next_nonce profile.nonce == nonce)
    then returned (none, p)
    else returned (
      some id,
      write id
          (record profile { last_requested_gc = current_time; nonce = next_nonce profile.nonce }) p,
    )

unfoldable pub request_gc : ℕ → ℕ → ℕ → NodeProfiles → Returned (Option ℕ × NodeProfiles)
request_gc current_time identity nonce p =
    find_profile identity p (returned (none, p)) (gc_of current_time nonce p)

unfoldable pub addr_of :
    ℕ → SocketAddr → NodeProfiles → ℕ → NodeProfile → Returned (Bool × NodeProfiles)
addr_of nonce addr p id profile =
    let (at_nonce, advanced) = advance_to profile.nonce nonce in
    if advanced
    then returned (false, write id (record profile { nonce = at_nonce }) p)
    else returned (true, write id (record profile { nonce = next_nonce at_nonce; addr = addr }) p)

unfoldable pub update_addr : ℕ → ℕ → SocketAddr → NodeProfiles → Returned (Bool × NodeProfiles)
update_addr identity nonce addr p =
    find_profile identity p (returned (false, p)) (addr_of nonce addr p)
