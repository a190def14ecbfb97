-- ===== src/Storage/Files.antt =====
-- storage/satelite/src/storage.rs: the pieces of a file on the nodes, and the maps of files and
-- users in lmdb. Overflows wrap, as they do in a release build; the counts of data and of all
-- pieces, which depend on the build, are parameters, as is the secret that is drawn for a file.
use onion_network.Base.{
  ℕ, ◌+◌, ◌-◌, ◌/◌, ◌%◌, ◌^◌, Bool, true, false, Option, none, some, List, [], ◌∷◌, ◌++◌, length,
  drop, take, set, map, any, get_elem?, ltb, ◌==◌, if◌then◌else◌,
}
use onion_network.Chat.Members.Database.{Store}
use onion_network.Codec.Sum.{SocketAddr}
use onion_network.Storage.Nodes.{
  NodeProfile, NodeProfiles, Returned, returned, panicked, next_nonce,
}

infixl 5 ◌>>=◌
abbrev pub ◌>>=◌ : {A B : Type 0} → Returned A → (A → Returned B) → Returned B
returned a >>= f = f a
panicked >>= f = panicked

abbrev pub at_index : {A : Type 0} → List NodeProfile → ℕ → (NodeProfile → Returned A) → Returned A
at_index records id f = elim (get_elem? records id) [ none ↦ panicked | some profile ↦ f profile ]

abbrev pub minus : ℕ → ℕ → ℕ
minus a b = (a + 2 ^ 64 - b) % 2 ^ 64

-- The loop that takes the room from the index and from the records.
unfoldable pub take_space :
    ℕ → List (ℕ × ℕ) → List NodeProfile → Returned (List (ℕ × ℕ) × List NodeProfile)
take_space alloc_size [] records = returned ([], records)
take_space alloc_size ((free, id) ∷ most_free) records = at_index records id λ profile.
    take_space alloc_size most_free
      (set records id (record profile { free_blocks = minus profile.free_blocks alloc_size }))
    >>= λ (left, after). returned ((minus free alloc_size, id) ∷ left, after)

unfoldable pub take_nonces : List (ℕ × ℕ) → List NodeProfile → Returned (List ℕ × List NodeProfile)
take_nonces [] records = returned ([], records)
take_nonces ((free, id) ∷ most_free) records = at_index records id λ profile.
    take_nonces most_free
      (set records id (record profile { our_nonce = next_nonce profile.our_nonce }))
    >>= λ (nonces, after). returned (profile.our_nonce ∷ nonces, after)

pub record Address : Type 0 where
  pub id : ℕ
  pub size : ℕ

pub record Allocated : Type 0 where
  pub address : Address
  pub holders : List ℕ
  pub nonces : List ℕ

abbrev pub div_ceil : ℕ → ℕ → ℕ
div_ceil a b = (a + (b - 1)) / b

module _ (data_pieces max_pieces : ℕ) where
  abbrev pub split_last : List (ℕ × ℕ) → List (ℕ × ℕ) × List (ℕ × ℕ)
  split_last index = let cut = length index - max_pieces in (take cut index, drop cut index)

  unfoldable pub allocate_file : ℕ → ℕ → NodeProfiles → Returned (Option Allocated × NodeProfiles)
  allocate_file secret size p =
      let alloc_size = div_ceil size data_pieces in
      let (others, most_free) = split_last p.free_space_index in
      if ltb (length p.free_space_index) max_pieces
      then returned (none, p)
      else if any (λ e. ltb (e.0) alloc_size) most_free
      then (take_space alloc_size most_free p.records >>= λ (left, records).
          take_nonces left records >>= λ (nonces, after). returned (
            some (record {
              address = record { id = secret; size = size };
              holders = map (λ e. e.1) left;
              nonces = nonces;
            }),
            record p { records = after; free_space_index = others ++ left },
          ))
      else returned (none, p)

unfoldable pub expand_holders : List ℕ → NodeProfiles → Returned (List (ℕ × SocketAddr))
expand_holders [] p = returned []
expand_holders (id ∷ holders) p =
    at_index p.records id
      λ n. expand_holders holders p >>= λ rest. returned ((n.identity, n.addr) ∷ rest)

-- `LmdbMap`, whose transactions succeed.
module _ {V : Type 0} (S : Store V) where
  -- `put::NOOVERWRITE`
  unfoldable pub save : ℕ → V → S.Db → Bool × S.Db
  save k v db = elim (S.get k db) [ none ↦ (true, S.put k v db) | some old ↦ (false, db) ]

  abbrev pub load : ℕ → S.Db → Option V
  load k db = S.get k db

  unfoldable pub delete : ℕ → (V → Bool) → S.Db → Bool × S.Db
  delete k guard db = elim (S.get k db) [
    | none ↦ (false, db)
    | some v ↦ if guard v then (true, S.del k db) else (false, db)
  ]

-- The nonces of the users: an identity that is not there is an error.
unfoldable pub advance_user_nonce : (S : Store ℕ) → ℕ → ℕ → S.Db → Option (Bool × S.Db)
advance_user_nonce S identity new db = elim (S.get identity db) [
  | none ↦ none
  | some nonce ↦
      if next_nonce nonce == new
      then some (true, S.put identity (next_nonce nonce) db)
      else some (false, db)
]
