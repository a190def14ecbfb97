-- ===== src/Codec/RoundTrips.antt =====
-- utils/codec: `to_bytes`, and then `decode` on those bytes with others behind them.
use onion_network.Base.{
  ℕ, ◌%◌, ◌^◌, ◌<◌, ◌≤◌, ◌≡◌, Option, none, some, Bool, true, List, ◌++◌, length, All, ltb, arith,
  if◌then◌else◌,
}
use onion_network.Codec.Reader.{Decode}
use onion_network.Codec.Traits.{Encode, to_bytes, IsEncoder, IsDecoder}
use onion_network.Codec.Traits.Laws.{to_bytes-eq}
use onion_network.Codec.Int.{int_encode, int_decode}
use onion_network.Codec.Int.Laws.{
  int_bytes, int_encode-IsEncoder, int_decode-IsDecoder, int_decode-int_bytes,
}
use onion_network.Codec.Seq.{bytes_encode, bytes_decode, vec_encode, vec_decode, array_vec_decode}
use onion_network.Codec.Seq.Laws.{
  concat_map, bytes_encode-IsEncoder, bytes_decode-IsDecoder, vec_encode-IsEncoder,
  vec_decode-IsDecoder, array_vec_decode-reads,
}
use onion_network.Codec.Sum.{
  option_encode, option_decode, Result, result_encode, result_decode, pair_encode, pair_decode,
  Range, range_encode, range_decode, SocketAddr, socket_encode, socket_decode,
}
use onion_network.Codec.Sum.Laws.{
  IsSomeValid, option_encode-IsEncoder, option_decode-IsDecoder, IsResultValid,
  result_encode-IsEncoder, result_decode-IsDecoder, pair_encode-IsEncoder, pair_decode-IsDecoder,
  range_encode-IsEncoder, range_decode-IsDecoder, IsIp, socket_encode-IsEncoder,
  socket_decode-IsDecoder,
}
use onion_network.Codec.Maps.{map_encode, hash_map_decode, tree_map_decode}
use onion_network.Codec.Maps.Laws.{
  KeysDiffer, KeysAscend, map_encode-IsEncoder, hash_map_decode-reads, tree_map_decode-reads,
}
use onion_network.Codec.Text.{is_utf8, str_decode, array_string_decode}
use onion_network.Codec.Text.Laws.{str_decode-IsDecoder, array_string_decode-IsDecoder}

-- A type with a codec that is lawful on its valid values, each of at least one byte.
pub record Coded (A : Type 0) : Type 1 where
  pub encode : Encode A
  pub decode : Decode A
  pub bytes : A → List ℕ
  pub Valid : A → Type 0
  pub encoder : IsEncoder encode bytes
  pub decoder : IsDecoder decode bytes Valid
  pub takes_bytes : (a : A) → Valid a → 1 ≤ length (bytes a)

-- The value is written, and read back in front of `rest`, as `b`.
abbrev pub ReadsAs : {A : Type 0} → Encode A → Decode A → A → A → List ℕ → Type 0
ReadsAs encode decode a b rest =
    (bs : List ℕ) × (to_bytes encode a ≡ some bs) × (decode (bs ++ rest) ≡ (some b, rest))

reads_back :
    {A : Type 0} {encode : Encode A} {decode : Decode A} {bytes : A → List ℕ} {Valid : A → Type 0}
    → IsEncoder encode bytes
    → IsDecoder decode bytes Valid
    → (a : A) (rest : List ℕ) → Valid a
    → ReadsAs encode decode a a rest
reads_back {bytes} e d a rest v = (bytes a, to_bytes-eq e a, d.reads a rest v)

-- An integer of `w` bits, at most 64, is read back by the type that wrote it.
pub int_round_trip :
    (w v : ℕ) (rest : List ℕ) → w ≤ 64 → v < 2 ^ w → ReadsAs int_encode (int_decode w) v v rest
int_round_trip w v rest small h =
    reads_back int_encode-IsEncoder (int_decode-IsDecoder w small) v rest h

-- Of an integer of a type with 64 bits or more, the lower 64 bits are read back.
pub int_wide_round_trip :
    (w v : ℕ) (rest : List ℕ) → 64 ≤ w → ReadsAs int_encode (int_decode w) v (v % 2 ^ 64) rest
int_wide_round_trip w v rest wide =
    (int_bytes v, to_bytes-eq int_encode-IsEncoder v, int_decode-int_bytes w v rest wide)

-- A byte slice of less than 2 ^ 64 bytes is read back.
pub bytes_round_trip :
    (bs rest : List ℕ) → length bs < 2 ^ 64 → ReadsAs bytes_encode bytes_decode bs bs rest
bytes_round_trip bs rest h = reads_back bytes_encode-IsEncoder bytes_decode-IsDecoder bs rest h

-- Valid UTF-8 of less than 2 ^ 64 bytes is read back as a `str`.
pub str_round_trip :
    (bs rest : List ℕ)
    → is_utf8 bs ≡ true
    → length bs < 2 ^ 64
    → ReadsAs bytes_encode str_decode bs bs rest
str_round_trip bs rest text h =
    reads_back bytes_encode-IsEncoder str_decode-IsDecoder bs rest (text, h)

-- Valid UTF-8 that fits in an `ArrayString` of a capacity below 2 ^ 64 is read back as one.
pub array_string_round_trip :
    (cap : ℕ) (bs rest : List ℕ)
    → is_utf8 bs ≡ true
    → length bs ≤ cap
    → cap < 2 ^ 64
    → ReadsAs bytes_encode (array_string_decode cap) bs bs rest
array_string_round_trip cap bs rest text fits small =
    reads_back bytes_encode-IsEncoder (array_string_decode-IsDecoder cap) bs rest
      ((text, fits), omega arith)

-- A socket address of a version 4 or 6 address and a 16-bit port is read back.
pub socket_round_trip :
    (a : SocketAddr) (rest : List ℕ)
    → IsIp a.ip
    → a.port < 2 ^ 16
    → ReadsAs socket_encode socket_decode a a rest
socket_round_trip a rest ip port =
    reads_back socket_encode-IsEncoder socket_decode-IsDecoder a rest (ip, port)

module _ {A : Type 0} (c : Coded A) where
  -- An option of valid values is read back.
  pub option_round_trip :
      (o : Option A) (rest : List ℕ)
      → IsSomeValid c.Valid o
      → ReadsAs (option_encode c.encode) (option_decode c.decode) o o rest
  option_round_trip o rest v =
      reads_back (option_encode-IsEncoder c.encoder) (option_decode-IsDecoder c.decoder) o rest v

  -- A range of valid ends is read back.
  pub range_round_trip :
      (r : Range A) (rest : List ℕ)
      → c.Valid r.start
      → c.Valid r.end
      → ReadsAs (range_encode c.encode) (range_decode c.decode) r r rest
  range_round_trip r rest vs ve =
      reads_back (range_encode-IsEncoder c.encoder) (range_decode-IsDecoder c.decoder) r rest
        (vs, ve)

  -- A vector of fewer than 2 ^ 64 valid items, each of a byte or more, is read back.
  pub vec_round_trip :
      (xs : List A) (rest : List ℕ)
      → All c.Valid xs
      → length xs < 2 ^ 64
      → ReadsAs (vec_encode c.encode) (vec_decode c.decode) xs xs rest
  vec_round_trip xs rest v h =
      reads_back (vec_encode-IsEncoder c.encoder) (vec_decode-IsDecoder c.decoder c.takes_bytes) xs
        rest (v, h)

  -- refuses more right behind their number.
  pub array_vec_round_trip :
      (cap : ℕ) (xs : List A) (rest : List ℕ)
      → All c.Valid xs
      → length xs < 2 ^ 64
      → (bs : List ℕ) × (to_bytes (vec_encode c.encode) xs ≡ some bs)
        × (array_vec_decode cap c.decode (bs ++ rest) ≡ (
            if ltb cap (length xs) then (none, concat_map c.bytes xs ++ rest) else (some xs, rest)))
  array_vec_round_trip cap xs rest v h = (
    _,
    to_bytes-eq (vec_encode-IsEncoder c.encoder) xs,
    array_vec_decode-reads c.decoder cap xs rest v h,
  )

module _ {A B : Type 0} (c : Coded A) (d : Coded B) where
  -- A result whose value is valid is read back.
  pub result_round_trip :
      (r : Result A B) (rest : List ℕ)
      → IsResultValid c.Valid d.Valid r
      → ReadsAs (result_encode c.encode d.encode) (result_decode c.decode d.decode) r r rest
  result_round_trip r rest v =
      reads_back (result_encode-IsEncoder c.encoder d.encoder)
        (result_decode-IsDecoder c.decoder d.decoder) r rest v

  -- A pair of valid values is read back.
  pub pair_round_trip :
      (a : A) (b : B) (rest : List ℕ)
      → c.Valid a
      → d.Valid b
      → ReadsAs (pair_encode c.encode d.encode) (pair_decode c.decode d.decode) (a, b) (a, b) rest
  pair_round_trip a b rest va vb =
      reads_back (pair_encode-IsEncoder c.encoder d.encoder)
        (pair_decode-IsDecoder c.decoder d.decoder) (a, b) rest (va, vb)

  -- A hash map of fewer than 2 ^ 64 valid entries, no two keys of which are equal, is read back.
  pub hash_map_round_trip :
      (equal : A → A → Bool) (m : List (A × B)) (rest : List ℕ)
      → All (λ e. c.Valid e.0 × d.Valid e.1) m
      → length m < 2 ^ 64
      → KeysDiffer equal m
      → ReadsAs (map_encode c.encode d.encode) (hash_map_decode equal c.decode d.decode) m m rest
  hash_map_round_trip equal m rest v h keys = (
    _,
    to_bytes-eq (map_encode-IsEncoder c.encoder d.encoder) m,
    hash_map_decode-reads c.decoder d.decoder c.takes_bytes d.takes_bytes equal m rest (v, h) keys,
  )

  -- An ordered map of fewer than 2 ^ 64 valid entries with ascending keys is read back.
  pub tree_map_round_trip :
      (less : A → A → Bool) (m : List (A × B)) (rest : List ℕ)
      → All (λ e. c.Valid e.0 × d.Valid e.1) m
      → length m < 2 ^ 64
      → KeysAscend less m
      → ReadsAs (map_encode c.encode d.encode) (tree_map_decode less c.decode d.decode) m m rest
  tree_map_round_trip less m rest v h keys = (
    _,
    to_bytes-eq (map_encode-IsEncoder c.encoder d.encoder) m,
    tree_map_decode-reads c.decoder d.decoder c.takes_bytes d.takes_bytes less m rest (v, h) keys,
  )
