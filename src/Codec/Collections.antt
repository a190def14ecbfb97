-- ===== src/Codec/Collections.antt =====
-- utils/codec/src/std_impls.rs, utils/codec/src/impls.rs: the types whose codec is that of another
-- type, or that of its items behind their number. A set is the list of its items, in the order of
-- its iterator; a `Box`, a `Cow`, an `Arc` and a reference are what they hold.
use onion_network.Base.{ℕ, Option, some, Bool, List, [], ◌∷◌, ◌++◌, length, if◌then◌else◌}
use onion_network.Base.Opt
use onion_network.Codec.Buffer.{Buffer, vec_buffer}
use onion_network.Codec.Reader.{Decode}
use onion_network.Codec.Traits.{Encode}
use onion_network.Codec.Int.{int_encode}
use onion_network.Codec.Seq.{
  bytes_encode, bytes_decode, reminder_encode, reminder_decode, each_encode, times_decode,
  vec_decode,
}
use onion_network.Codec.Maps.{map_encode, collection_decode}
use onion_network.Codec.Text.{str_decode}

-- `&str` is written as its bytes, and so are `String`, `ArrayString` and `Box<[u8]>`.
unfoldable pub str_encode : Encode (List ℕ)
str_encode = bytes_encode

unfoldable pub string_encode : Encode (List ℕ)
string_encode = str_encode

unfoldable pub string_decode : Decode (List ℕ)
string_decode = str_decode

unfoldable pub array_string_encode : Encode (List ℕ)
array_string_encode = bytes_encode

unfoldable pub box_encode : Encode (List ℕ)
box_encode = bytes_encode

unfoldable pub box_decode : Decode (List ℕ)
box_decode = bytes_decode

unfoldable pub reminder_owned_encode : Encode (List ℕ)
reminder_owned_encode = reminder_encode

unfoldable pub reminder_owned_decode : Decode (List ℕ)
reminder_owned_decode = reminder_decode

module _ {T : Type 0} where
  abbrev pub push_back : T → List T → List T
  push_back x xs = xs ++ (x ∷ [])

  -- An item that is there already stays.
  unfoldable pub hash_set_insert : (T → T → Bool) → T → List T → List T
  hash_set_insert equal x [] = x ∷ []
  hash_set_insert equal x (y ∷ ys) =
      let rest = hash_set_insert equal x ys in if equal x y then y ∷ ys else y ∷ rest

  unfoldable pub tree_set_insert : (T → T → Bool) → T → List T → List T
  tree_set_insert less x [] = x ∷ []
  tree_set_insert less x (y ∷ ys) =
      let rest = tree_set_insert less x ys in
      if less x y then x ∷ y ∷ ys else if less y x then y ∷ rest else y ∷ ys

  unfoldable pub array_vec_encode : Encode T → Encode (List T)
  array_vec_encode encode B xs s = Opt.◌>>=◌ (int_encode B (length xs) s) (each_encode encode B xs)

  -- `[T; LEN]`
  unfoldable pub array_encode : Encode T → Encode (List T)
  array_encode = each_encode

  unfoldable pub array_decode : ℕ → Decode T → Decode (List T)
  array_decode len decode = times_decode decode len

  unfoldable pub reminder_vec_encode : Encode T → Encode (List T)
  reminder_vec_encode = each_encode

  unfoldable pub arc_encode : Encode T → Encode (List T)
  arc_encode encode B xs s = Opt.◌>>=◌ (int_encode B (length xs) s) (each_encode encode B xs)

  unfoldable pub arc_decode : Decode T → Decode (List T)
  arc_decode = vec_decode

  unfoldable pub vec_deque_encode : Encode T → Encode (List T)
  vec_deque_encode encode B xs s = Opt.◌>>=◌ (int_encode B (length xs) s) (each_encode encode B xs)

  unfoldable pub vec_deque_decode : Decode T → Decode (List T)
  vec_deque_decode = collection_decode push_back 1

  unfoldable pub hash_set_encode : Encode T → Encode (List T)
  hash_set_encode encode B xs s = Opt.◌>>=◌ (int_encode B (length xs) s) (each_encode encode B xs)

  unfoldable pub tree_set_encode : Encode T → Encode (List T)
  tree_set_encode encode B xs s = Opt.◌>>=◌ (int_encode B (length xs) s) (each_encode encode B xs)

  unfoldable pub hash_set_decode : (T → T → Bool) → Decode T → Decode (List T)
  hash_set_decode equal = collection_decode (hash_set_insert equal) 1

  unfoldable pub tree_set_decode : (T → T → Bool) → Decode T → Decode (List T)
  tree_set_decode less = collection_decode (tree_set_insert less) 1

unfoldable pub tree_map_encode : {K V : Type 0} → Encode K → Encode V → Encode (List (K × V))
tree_map_encode = map_encode

-- A reference and a `Cow` are written as what they hold, and a `Cow` is read as an owned value.
unfoldable pub ref_encode : {T : Type 0} → Encode T → Encode T
ref_encode encode = encode

unfoldable pub cow_encode : {T : Type 0} → Encode T → Encode T
cow_encode encode = encode

unfoldable pub cow_decode : {T : Type 0} → Decode T → Decode T
cow_decode decode = decode

unfoldable pub phantom_encode : Encode (Unit {0})
phantom_encode B u s = some s

unfoldable pub phantom_decode : Decode (Unit {0})
phantom_decode buffer = (some tt, buffer)

-- `SmallVec` grows like a vector.
abbrev pub small_vec_buffer : Buffer
small_vec_buffer = vec_buffer

-- `WritableBuffer::write`: the number of bytes written; `none` is the error `OutOfMemory`.
unfoldable pub writable_write : (B : Buffer) → List ℕ → B.State → Option (B.State × ℕ)
writable_write B buf s = Opt.◌>>=◌ (B.extend_from_slice s buf) (λ s'. some (s', length buf))
