-- ===== src/Codec/Maps/Laws.antt =====
-- Maps and sets are read back from their encoding.
use onion_network.Base.{
  ℕ, ◌*◌, ◌%◌, ◌^◌, ◌<◌, ◌≤◌, ◌≡◌, refl, sym, ◌∙◌, some, Bool, true, false, List, [], ◌∷◌, ◌++◌,
  append_assoc, append-nil, length, length-append, All, arith, ltb, le→ltb,
}
use onion_network.Codec.Reader.{Decode}
use onion_network.Codec.Traits.{Encode, IsEncoder, IsDecoder}
use onion_network.Codec.Int.Laws.{int_bytes, int_encode-IsEncoder}
use onion_network.Codec.Seq.Laws.{then-writes, concat_map, each_encode-IsEncoder, usize-reads}
use onion_network.Codec.Sum.Laws.{pair_bytes, pair_encode-IsEncoder, pair_decode-IsDecoder}
use onion_network.Codec.Maps.{
  map_encode, inserts_decode, collection_decode, hash_insert, tree_insert, hash_map_decode,
  tree_map_decode,
}

module _ {E : Type 0} where
  -- What a loop of insertions leaves.
  abbrev pub insert_all : (E → List E → List E) → List E → List E → List E
  insert_all insert [] s = s
  insert_all insert (e ∷ es) s = insert_all insert es (insert e s)

  module _ {decode : Decode E} {bytes : E → List ℕ} {Valid : E → Type 0}
      (insert : E → List E → List E) (d : IsDecoder decode bytes Valid) where
    inserts-reads :
        (es s : List E) (rest : List ℕ)
        → All Valid es
        → inserts_decode insert decode (length es) s (concat_map bytes es ++ rest)
          ≡ (some (insert_all insert es s), rest)
    unfolding inserts_decode
    inserts-reads [] s rest v = refl
    inserts-reads (e ∷ es) s rest (ve, ves) =
        rw
          (
            append_assoc (bytes e) (concat_map bytes es) rest,
            d.reads e (concat_map bytes es ++ rest) ve,
          )
          (inserts-reads es (insert e s) rest ves)

    length-concat_map_times :
        (least : ℕ)
        → ((e : E) → Valid e → least ≤ length (bytes e))
        → (es : List E) → All Valid es
        → length es * least ≤ length (concat_map bytes es)
    length-concat_map_times least t [] v = omega arith
    length-concat_map_times least t (e ∷ es) (ve, ves) = omega (
      arith,
      length-append (bytes e) (concat_map bytes es),
      t e ve,
      length-concat_map_times least t es ves,
    )

    -- A collection reads the entries that were written, and inserts them in turn.
    pub collection-reads :
        (least : ℕ)
        → ((e : E) → Valid e → least ≤ length (bytes e))
        → (es : List E) (rest : List ℕ) → All Valid es × (length es < 2 ^ 64)
        → collection_decode insert least decode
            (int_bytes (length es) ++ concat_map bytes es ++ rest)
          ≡ (some (insert_all insert es []), rest)
    unfolding collection_decode
    collection-reads least t es rest (v, h) =
        let enough : ltb (length (concat_map bytes es ++ rest)) (length es * least % 2 ^ 64)
            ≡ false =
          le→ltb _ _ (
            omega (
              arith,
              length-append (concat_map bytes es) rest,
              length-concat_map_times least t es v,
            )) in
        rw
          (
            append_assoc (int_bytes (length es)) (concat_map bytes es) rest,
            usize-reads (length es) (concat_map bytes es ++ rest) h,
            enough,
          )
          (inserts-reads es [] rest v)

  -- Each entry is fresh for those before it.
  abbrev pub InOrder : (E → List E → Type 0) → List E → List E → Type 0
  InOrder Fresh s [] = Unit
  InOrder Fresh s (e ∷ es) = Fresh e s × InOrder Fresh (s ++ (e ∷ [])) es

  -- Insertions that each put their entry at the end leave the list of the entries.
  module _ (insert : E → List E → List E) (Fresh : E → List E → Type 0)
      (last : (e : E) (s : List E) → Fresh e s → insert e s ≡ s ++ (e ∷ [])) where
    pub insert_all-append : (es s : List E) → InOrder Fresh s es → insert_all insert es s ≡ s ++ es
    insert_all-append [] s o = sym (append-nil s)
    insert_all-append (e ∷ es) s (fresh, o) =
        rw (last e s fresh, insert_all-append es (s ++ (e ∷ [])) o, append_assoc s (e ∷ []) es)

module _ {K V : Type 0} where
  abbrev pub HasNoKey : (K → K → Bool) → K × V → List (K × V) → Type 0
  HasNoKey equal e s = All (λ f. equal e.0 f.0 ≡ false) s

  hash_insert-last :
      (equal : K → K → Bool) (e : K × V) (s : List (K × V))
      → HasNoKey equal e s
      → hash_insert equal e s ≡ s ++ (e ∷ [])
  unfolding hash_insert
  hash_insert-last equal e [] h = refl
  hash_insert-last equal e (f ∷ s) (h, hs) = rw (h, hash_insert-last equal e s hs)

  abbrev pub IsAbove : (K → K → Bool) → K × V → List (K × V) → Type 0
  IsAbove less e s = All (λ f. (less f.0 e.0 ≡ true) × (less e.0 f.0 ≡ false)) s

  tree_insert-last :
      (less : K → K → Bool) (e : K × V) (s : List (K × V))
      → IsAbove less e s
      → tree_insert less e s ≡ s ++ (e ∷ [])
  unfolding tree_insert
  tree_insert-last less e [] h = refl
  tree_insert-last less e (f ∷ s) ((up, down), hs) = rw (down, up, tree_insert-last less e s hs)

  -- Each key differs from those before it, or is above them.
  abbrev pub KeysDiffer : (K → K → Bool) → List (K × V) → Type 0
  KeysDiffer equal = InOrder (HasNoKey equal) []

  abbrev pub KeysAscend : (K → K → Bool) → List (K × V) → Type 0
  KeysAscend less = InOrder (IsAbove less) []

  abbrev pub map_bytes : (K → List ℕ) → (V → List ℕ) → List (K × V) → List ℕ
  map_bytes bytes_k bytes_v m = int_bytes (length m) ++ concat_map (pair_bytes bytes_k bytes_v) m

  pub map_encode-IsEncoder :
      {encode_k : Encode K} {encode_v : Encode V} {bytes_k : K → List ℕ} {bytes_v : V → List ℕ}
      → IsEncoder encode_k bytes_k
      → IsEncoder encode_v bytes_v
      → IsEncoder (map_encode encode_k encode_v) (map_bytes bytes_k bytes_v)
  unfolding map_encode
  map_encode-IsEncoder {bytes_k} {bytes_v} ek ev = record {
    writes = λ B lawful m s.
        then-writes B s _ _ (int_bytes (length m)) (concat_map (pair_bytes bytes_k bytes_v) m)
          (int_encode-IsEncoder.writes B lawful (length m) s)
          ((each_encode-IsEncoder (pair_encode-IsEncoder ek ev)).writes B lawful m);
  }

  module _ {decode_k : Decode K} {decode_v : Decode V} {bytes_k : K → List ℕ} {bytes_v : V → List ℕ}
      {Valid_k : K → Type 0} {Valid_v : V → Type 0} (dk : IsDecoder decode_k bytes_k Valid_k)
      (dv : IsDecoder decode_v bytes_v Valid_v) (tk : (k : K) → Valid_k k → 1 ≤ length (bytes_k k))
      (tv : (v : V) → Valid_v v → 1 ≤ length (bytes_v v)) where
    abbrev pub IsMap : List (K × V) → Type 0
    IsMap m = All (λ e. Valid_k e.0 × Valid_v e.1) m × (length m < 2 ^ 64)

    two_bytes : (e : K × V) → Valid_k e.0 × Valid_v e.1 → 2 ≤ length (pair_bytes bytes_k bytes_v e)
    two_bytes (k, v) (vk, vv) =
        omega (arith, length-append (bytes_k k) (bytes_v v), tk k vk, tv v vv)

    pub hash_map_decode-reads :
        (equal : K → K → Bool) (m : List (K × V)) (rest : List ℕ)
        → IsMap m
        → KeysDiffer equal m
        → hash_map_decode equal decode_k decode_v (map_bytes bytes_k bytes_v m ++ rest)
          ≡ (some m, rest)
    unfolding hash_map_decode
    hash_map_decode-reads equal m rest valid o =
        collection-reads (hash_insert equal) (pair_decode-IsDecoder dk dv) 2 two_bytes m rest valid
        ∙ rw
            (insert_all-append (hash_insert equal) (HasNoKey equal) (hash_insert-last equal) m [] o)

    pub tree_map_decode-reads :
        (less : K → K → Bool) (m : List (K × V)) (rest : List ℕ)
        → IsMap m
        → KeysAscend less m
        → tree_map_decode less decode_k decode_v (map_bytes bytes_k bytes_v m ++ rest)
          ≡ (some m, rest)
    unfolding tree_map_decode
    tree_map_decode-reads less m rest valid o =
        collection-reads (tree_insert less) (pair_decode-IsDecoder dk dv) 2 two_bytes m rest valid
        ∙ rw (insert_all-append (tree_insert less) (IsAbove less) (tree_insert-last less) m [] o)
