-- ===== src/Codec/Maps.antt =====
-- utils/codec/src/std_impls.rs: hash maps and sets, ordered maps and sets, error kinds.
-- A hash map is the list of its entries, in the order that its iterator has; a decoded map has the
-- order of insertion. An ordered map is the list of its entries, the keys ascending.
pub mod Laws
use onion_network.Base.{
  ℕ, zero, suc, ◌*◌, ◌%◌, ◌^◌, Option, none, some, Bool, true, false, List, [], ◌∷◌, length,
  get_elem?, ltb, ◌==◌, if◌then◌else◌,
}
use onion_network.Base.Opt
use onion_network.Codec.Buffer.{Buffer}
use onion_network.Codec.Reader.{Decode, pure, fail, ◌>>=◌}
use onion_network.Codec.Traits.{Encode}
use onion_network.Codec.Int.{int_encode, usize_decode}
use onion_network.Codec.Sum.{pair_encode, pair_decode}
use onion_network.Codec.Seq.{each_encode}

-- `impl Encode` of both kinds of map, and of both kinds of set with one field for an entry.
unfoldable pub map_encode : {K V : Type 0} → Encode K → Encode V → Encode (List (K × V))
map_encode encode_k encode_v B m s =
    Opt.◌>>=◌ (int_encode B (length m) s) (each_encode (pair_encode encode_k encode_v) B m)

module _ {E : Type 0} (insert : E → List E → List E) where
  -- `for _ in 0..len { s.insert(..decode(buffer)?); }`
  unfoldable pub inserts_decode : Decode E → ℕ → List E → Decode (List E)
  inserts_decode decode zero s = pure s
  inserts_decode decode (suc len) s = do e ← decode; inserts_decode decode len (insert e s)

  -- `impl Decode` of a map (`least` is 2 bytes an entry) or a set (1 byte);
  -- the product wraps, as the release build has it.
  unfoldable pub collection_decode : ℕ → Decode E → Decode (List E)
  collection_decode least decode = do
    len ← usize_decode
    λ buffer.
        if ltb (length buffer) (len * least % 2 ^ 64)
        then (none, buffer)
        else inserts_decode decode len [] buffer

module _ {K V : Type 0} (equal : K → K → Bool) where
  -- `HashMap::insert`: an entry with the key keeps its place and its key.
  unfoldable pub hash_insert : K × V → List (K × V) → List (K × V)
  hash_insert e [] = e ∷ []
  hash_insert e (f ∷ m) = if equal e.0 f.0 then (f.0, e.1) ∷ m else f ∷ hash_insert e m

module _ {K V : Type 0} (less : K → K → Bool) where
  -- `BTreeMap::insert`
  unfoldable pub tree_insert : K × V → List (K × V) → List (K × V)
  tree_insert e [] = e ∷ []
  tree_insert e (f ∷ m) =
      if less e.0 f.0
      then e ∷ f ∷ m
      else if less f.0 e.0
      then f ∷ tree_insert e m
      else (f.0, e.1) ∷ m

unfoldable pub hash_map_decode :
    {K V : Type 0} → (K → K → Bool) → Decode K → Decode V → Decode (List (K × V))
hash_map_decode equal decode_k decode_v =
    collection_decode (hash_insert equal) 2 (pair_decode decode_k decode_v)

unfoldable pub tree_map_decode :
    {K V : Type 0} → (K → K → Bool) → Decode K → Decode V → Decode (List (K × V))
tree_map_decode less decode_k decode_v =
    collection_decode (tree_insert less) 2 (pair_decode decode_k decode_v)

-- `io::ErrorKind` by its place in `ERROR_LIST`, which has 20 kinds; a kind that is not listed is
-- `none` here.
unfoldable pub error_kind_encode : Encode (Option ℕ)
error_kind_encode B (some place) s = int_encode B place s
error_kind_encode B none s = int_encode B 127 s

unfoldable pub error_kind_decode : Decode ℕ
error_kind_decode = do place ← usize_decode; if ltb place 20 then pure place else fail
