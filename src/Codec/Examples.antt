-- ===== src/Codec/Examples.antt =====
-- The theorems of the codec at concrete values.
use onion_network.Base.{ℕ, ◌+◌, ◌<◌, ◌^◌, ◌≡◌, refl, true, List, [], ◌∷◌, ◌==◌, arith}
use onion_network.Codec.Int.{int_encode, int_decode, u8_encode, u8_decode}
use onion_network.Codec.Int.Laws.{
  int_bytes, length-int_bytes, int_encode-IsEncoder, int_decode-IsDecoder, u8_bytes,
  u8_encode-IsEncoder, u8_decode-IsDecoder,
}
use onion_network.Codec.Seq.{vec_encode, vec_decode}
use onion_network.Codec.Sum.{Result, err, SocketAddr, v4}
use onion_network.Codec.Maps.{map_encode, hash_map_decode}
use onion_network.Codec.Text.{is_utf8}
use onion_network.Codec.RoundTrips.{
  Coded, ReadsAs, int_round_trip, int_wide_round_trip, vec_round_trip, hash_map_round_trip,
}

abbrev u16 : Coded ℕ
u16 = record {
  encode = int_encode;
  decode = int_decode 16;
  bytes = int_bytes;
  Valid = λ v. v < 2 ^ 16;
  encoder = int_encode-IsEncoder;
  decoder = int_decode-IsDecoder 16 (omega arith);
  takes_bytes = λ v h. length-int_bytes v;
}

abbrev byte : Coded ℕ
byte = record {
  encode = u8_encode;
  decode = u8_decode;
  bytes = u8_bytes;
  Valid = λ v. v < 256;
  encoder = u8_encode-IsEncoder;
  decoder = u8_decode-IsDecoder;
  takes_bytes = λ v h. omega arith;
}

int_round_trip_example : ReadsAs int_encode (int_decode 32) 70000 70000 (9 ∷ [])
int_round_trip_example = int_round_trip 32 70000 (9 ∷ []) (omega arith) (omega arith)

-- A `u128` with the 65th bit set loses it.
int_wide_round_trip_example : ReadsAs int_encode (int_decode 128) (2 ^ 64 + 5) 5 []
int_wide_round_trip_example = int_wide_round_trip 128 (2 ^ 64 + 5) [] (omega arith)

-- "a" and "é"
text_is_utf8 : is_utf8 (97 ∷ 195 ∷ 169 ∷ []) ≡ true
unfolding is_utf8
text_is_utf8 = refl

abbrev localhost : SocketAddr
localhost = record { ip = v4 (127 ∷ 0 ∷ 0 ∷ 1 ∷ []); port = 8080 }

vec_round_trip_example :
    ReadsAs (vec_encode int_encode) (vec_decode (int_decode 16)) (1 ∷ 300 ∷ []) (1 ∷ 300 ∷ []) []
vec_round_trip_example =
    vec_round_trip u16 (1 ∷ 300 ∷ []) [] (omega arith, (omega arith, tt)) (omega arith)

-- One item too many for the capacity.
abbrev refused : Result ℕ ℕ
refused = err 300

abbrev ports : List (ℕ × ℕ)
ports = (7, 300) ∷ (9, 80) ∷ []

hash_map_round_trip_example :
    ReadsAs
      (map_encode u8_encode int_encode)
      (hash_map_decode (λ a b. a == b) u8_decode (int_decode 16))
      ports
      ports
      []
hash_map_round_trip_example =
    hash_map_round_trip byte u16 (λ a b. a == b) ports []
      ((omega arith, omega arith), ((omega arith, omega arith), tt)) (omega arith)
      (tt, ((refl, tt), tt))
