-- ===== src/Storage/Indexed.antt =====
-- storage/satelite/src/storage.rs: the maps that a satelite keeps beside the records of its nodes
-- are those that it would read back.
use onion_network.Base.{
  ℕ, zero, suc, ◌+◌, ◌-◌, ◌%◌, ◌^◌, ◌<◌, ◌≤◌, ◌≡◌, refl, sym, ap, ◌∙◌, false, not, Option, none,
  some, List, [], ◌∷◌, ◌++◌, length, set, get_elem?, ltb, ◌==◌, ◌||◌, if◌then◌else◌, Option-cases,
  Bool-cases, inl, inr, arith,
}
use onion_network.Chat.Members.{advance_to}
use onion_network.Codec.Sum.{SocketAddr}
use onion_network.Storage.Nodes.{
  NodeProfile, NodeProfiles, Returned, returned, panicked, node_id, entry_insert, index_identities,
  index_space, from_records, register_node, request_gc, update_addr, add_profile, write,
  find_profile, gc_of, addr_of, gc_cooldown, next_nonce, new_profile,
}

-- The maps are those of the records.
pub record IsIndexed (p : NodeProfiles) : Type 0 where
  pub identities : (k : ℕ) → p.identity_to_id k ≡ (from_records p.records).identity_to_id k
  pub space : p.free_space_index ≡ (from_records p.records).free_space_index

plus_zero : (i : ℕ) → i ≡ i + 0
plus_zero i = omega arith

shift : (i n : ℕ) → (i + 1) + n ≡ i + suc n
shift i n = omega arith

abbrev room_of : Option NodeProfile → ℕ
room_of none = 0
room_of (some p) = p.free_blocks

abbrev identity_of : Option NodeProfile → ℕ
identity_of none = 0
identity_of (some p) = p.identity

abbrev or_zero : Option ℕ → ℕ
or_zero none = 0
or_zero (some n) = n

index_space-append :
    (i : ℕ) (ps : List NodeProfile) (p : NodeProfile)
    → index_space i (ps ++ (p ∷ []))
      ≡ index_space i ps ++ ((p.free_blocks, node_id (i + length ps)) ∷ [])
index_space-append i [] p = ap (λ n. (p.free_blocks, node_id n) ∷ []) (plus_zero i)
index_space-append i (q ∷ ps) p =
    ap (λ r. (q.free_blocks, node_id i) ∷ r)
      (index_space-append (i + 1) ps p
        ∙ ap (λ n. index_space (i + 1) ps ++ ((p.free_blocks, node_id n) ∷ []))
            (shift i (length ps)))

index_identities-append :
    (i : ℕ) (ps : List NodeProfile) (p : NodeProfile) (m : ℕ → Option ℕ) (k : ℕ)
    → index_identities i (ps ++ (p ∷ [])) m k
      ≡ entry_insert p.identity (node_id (i + length ps)) (index_identities i ps m) k
index_identities-append i [] p m k = ap (λ n. entry_insert p.identity (node_id n) m k) (plus_zero i)
index_identities-append i (q ∷ ps) p m k =
    let first = entry_insert q.identity (node_id i) m in
    index_identities-append (i + 1) ps p first k
    ∙ ap (λ n. entry_insert p.identity (node_id n) (index_identities (i + 1) ps first) k)
        (shift i (length ps))

-- A record that is replaced by one of the same node and room leaves the maps as they are.
index_space-set :
    (i j : ℕ) (ps : List NodeProfile) (old new : NodeProfile)
    → get_elem? ps j ≡ some old
    → new.free_blocks ≡ old.free_blocks
    → index_space i (set ps j new) ≡ index_space i ps
index_space-set i j [] old new found same = refl
index_space-set i zero (p ∷ ps) old new found same =
    ap (λ free. (free, node_id i) ∷ index_space (i + 1) ps) (same ∙ sym (ap room_of found))
index_space-set i (suc j) (p ∷ ps) old new found same =
    ap (λ r. (p.free_blocks, node_id i) ∷ r) (index_space-set (i + 1) j ps old new found same)

index_identities-set :
    (i j : ℕ) (ps : List NodeProfile) (old new : NodeProfile) (m : ℕ → Option ℕ)
    → get_elem? ps j ≡ some old
    → new.identity ≡ old.identity
    → index_identities i (set ps j new) m ≡ index_identities i ps m
index_identities-set i j [] old new m found same = refl
index_identities-set i zero (p ∷ ps) old new m found same =
    ap (λ k. index_identities (i + 1) ps (entry_insert k (node_id i) m))
      (same ∙ sym (ap identity_of found))
index_identities-set i (suc j) (p ∷ ps) old new m found same =
    index_identities-set (i + 1) j ps old new _ found same

add_profile-IsIndexed :
    (profile : NodeProfile) (p : NodeProfiles) → IsIndexed p → IsIndexed (add_profile profile p)
unfolding from_records
add_profile-IsIndexed profile p h = record {
  identities = λ k.
      ap (λ o. if profile.identity == k then some (node_id (length p.records)) else o)
        (h.identities k)
      ∙ sym (
          index_identities-append 0 p.records profile (λ k. none) k
          ∙ ap
              (λ n.
                entry_insert profile.identity (node_id n) (index_identities 0 p.records (λ k. none))
                  k)
              (zero_plus (length p.records)));
  space =
      ap (λ index. index ++ ((profile.free_blocks, node_id (length p.records)) ∷ [])) h.space
      ∙ sym (
          index_space-append 0 p.records profile
          ∙ ap (λ n. index_space 0 p.records ++ ((profile.free_blocks, node_id n) ∷ []))
              (zero_plus (length p.records)));
}
  where
    zero_plus : (n : ℕ) → 0 + n ≡ n
    zero_plus n = omega arith

write-IsIndexed :
    (id : ℕ) (old new : NodeProfile) (p : NodeProfiles)
    → get_elem? p.records id ≡ some old
    → new.identity ≡ old.identity
    → new.free_blocks ≡ old.free_blocks
    → IsIndexed p
    → IsIndexed (write id new p)
unfolding from_records
write-IsIndexed id old new p found same_identity same_room h = record {
  identities = λ k.
      h.identities k
      ∙ sym (
          ap (λ m. m k)
            (index_identities-set 0 id p.records old new (λ k. none) found same_identity));
  space = h.space ∙ sym (index_space-set 0 id p.records old new found same_room);
}

-- A call returns, and leaves maps that are those of the records.
abbrev pub KeepsIndex : {A : Type 0} → Returned (A × NodeProfiles) → Type 0
KeepsIndex (returned (a, p)) = IsIndexed p
KeepsIndex panicked = ⊥

index_identities-below :
    (n i : ℕ) (ps : List NodeProfile) (m : ℕ → Option ℕ) (k id : ℕ)
    → i + length ps ≤ n
    → n ≤ 2 ^ 16
    → ((j l : ℕ) → m j ≡ some l → l < n)
    → index_identities i ps m k ≡ some id
    → id < n
index_identities-below n i [] m k id short fits below e = below k id e
index_identities-below n i (p ∷ ps) m k id short fits below e =
    index_identities-below n (i + 1) ps _ k id (omega (arith, short)) fits inserted e
  where
    inserted : (j l : ℕ) → entry_insert p.identity (node_id i) m j ≡ some l → l < n
    inserted j l at_j = elim (Bool-cases (p.identity == j)) [
      | inl same ↦ let found = rw same at at_j in omega (arith, ap or_zero found, short, fits)
      | inr other ↦ below j l (rw other at at_j)
    ]

get_elem?-none : {A : Type 0} (xs : List A) (i : ℕ) → get_elem? xs i ≡ none → length xs ≤ i
get_elem?-none [] i e = omega arith
get_elem?-none (x ∷ xs) zero e = absurd (ground arith)
get_elem?-none (x ∷ xs) (suc i) e = omega (arith, get_elem?-none xs i e)

find_profile-KeepsIndex :
    {A : Type 0} (identity : ℕ) (p : NodeProfiles) (a : A)
    (f : ℕ → NodeProfile → Returned (A × NodeProfiles))
    → IsIndexed p
    → length p.records ≤ 2 ^ 16
    → ((id : ℕ) (profile : NodeProfile)
        → get_elem? p.records id ≡ some profile
        → KeepsIndex (f id profile))
    → KeepsIndex (find_profile identity p (returned (a, p)) f)
unfolding from_records
find_profile-KeepsIndex identity p a f h fits keeps =
    elim (Option-cases (p.identity_to_id identity)) [
      | inl missing ↦ rw (find_profile, missing) h
      | inr (id, found) ↦ elim (Option-cases (get_elem? p.records id)) [
        | inl out ↦
            let short = get_elem?-none p.records id out in
            let below =
              index_identities-below (length p.records) 0 p.records (λ k. none) identity id
                (omega arith) fits (λ j l e. absurd (ground arith))
                (sym (h.identities identity) ∙ found) in
            absurd (omega (arith, short, below))
        | inr (profile, there) ↦ rw (find_profile, found, there) (keeps id profile there)
      ]
    ]

gc_of-KeepsIndex :
    (now nonce : ℕ) (p : NodeProfiles) (id : ℕ) (profile : NodeProfile)
    → IsIndexed p
    → get_elem? p.records id ≡ some profile
    → KeepsIndex (gc_of now nonce p id profile)
unfolding gc_of
gc_of-KeepsIndex now nonce p id profile h found =
    elim (Bool-cases (
      ltb ((now + 2 ^ 64 - profile.last_requested_gc) % 2 ^ 64) gc_cooldown
      || not (next_nonce profile.nonce == nonce))) [
        | inl refused ↦ rw (gc_of, refused) h
        | inr granted ↦ rw (gc_of, granted) (write-IsIndexed id profile _ p found refl refl h)
      ]

addr_of-KeepsIndex :
    (nonce : ℕ) (addr : SocketAddr) (p : NodeProfiles) (id : ℕ) (profile : NodeProfile)
    → IsIndexed p
    → get_elem? p.records id ≡ some profile
    → KeepsIndex (addr_of nonce addr p id profile)
unfolding addr_of advance_to
addr_of-KeepsIndex nonce addr p id profile h found = elim (Bool-cases (ltb profile.nonce nonce)) [
  | inl newer ↦ rw (addr_of, newer) (write-IsIndexed id profile _ p found refl refl h)
  | inr older ↦ rw (addr_of, older) (write-IsIndexed id profile _ p found refl refl h)
]

-- Where the maps of a satelite are those of its records, which are at most 2 ^ 16, they are so
-- after a node is registered, asks for garbage collection or changes its address, and none of
-- the last two panics.
pub register_node-request_gc-update_addr-IsIndexed :
    (p : NodeProfiles) (identity pre_identity : ℕ) (addr : SocketAddr) (free_blocks now nonce : ℕ)
    → IsIndexed p
    → length p.records ≤ 2 ^ 16
    → IsIndexed ((register_node identity pre_identity addr free_blocks p).1)
      × KeepsIndex (request_gc now identity nonce p)
      × KeepsIndex (update_addr identity nonce addr p)
unfolding register_node request_gc update_addr
register_node-request_gc-update_addr-IsIndexed p identity pre_identity addr free_blocks now nonce h
      fits =
    (
      registered,
      find_profile-KeepsIndex identity p none (gc_of now nonce p) h fits
          (λ id profile found. gc_of-KeepsIndex now nonce p id profile h found),
      find_profile-KeepsIndex identity p false (addr_of nonce addr p) h fits
          (λ id profile found. addr_of-KeepsIndex nonce addr p id profile h found),
    )
  where
    registered : IsIndexed ((register_node identity pre_identity addr free_blocks p).1)
    registered = elim (Option-cases (p.identity_to_id identity)) [
      | inl new ↦
          rw (register_node, new)
            (add_profile-IsIndexed (new_profile identity pre_identity addr free_blocks) p h)
      | inr (old, found) ↦ rw (register_node, found) h
    ]
