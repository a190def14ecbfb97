-- ===== src/Codec/Sum/Laws.antt =====
-- The wire format of options, results, tuples, ranges and addresses, and that they are read back.
use onion_network.Base.{
  ℕ, ◌^◌, ◌<◌, ◌≡◌, refl, Option, none, some, true, false, List, [], ◌∷◌, ◌++◌, append_assoc,
  length, All, arith, ap,
}
use onion_network.Codec.Buffer.{Buffer, IsBuffer, push_all}
use onion_network.Codec.Reader.{Decode}
use onion_network.Codec.Traits.{Encode, IsEncoder, IsDecoder}
use onion_network.Codec.Int.{bool_decode, u8_decode}
use onion_network.Codec.Int.Laws.{
  bool_encode-IsEncoder, u8_bytes, u8_encode-IsEncoder, u8_decode-IsDecoder, int_bytes,
  int_encode-IsEncoder, int_decode-IsDecoder,
}
use onion_network.Codec.Seq.{times_decode}
use onion_network.Codec.Seq.Laws.{then-writes, times-reads, concat_map}
use onion_network.Codec.Sum.{
  option_encode, option_decode, Result, ok, err, result_encode, result_decode, pair_encode,
  pair_decode, Range, range_encode, range_decode, IpAddr, v4, v6, ip_encode, ip_decode, SocketAddr,
  socket_encode, socket_decode,
}

module _ {A : Type 0} where
  abbrev pub option_bytes : (A → List ℕ) → Option A → List ℕ
  option_bytes bytes (some t) = 1 ∷ bytes t
  option_bytes bytes none = 0 ∷ []

  abbrev pub IsSomeValid : (A → Type 0) → Option A → Type 0
  IsSomeValid Valid (some t) = Valid t
  IsSomeValid Valid none = Unit

  option-writes :
      {encode : Encode A} {bytes : A → List ℕ} (e : IsEncoder encode bytes) (B : Buffer)
      → IsBuffer B
      → (o : Option A) (s : B.State)
      → option_encode encode B o s ≡ push_all B.push s (option_bytes bytes o)
  unfolding option_encode
  option-writes {bytes} e B lawful (some t) s =
      then-writes B s _ _ (1 ∷ []) (bytes t) (bool_encode-IsEncoder.writes B lawful true s)
        (e.writes B lawful t)
  option-writes e B lawful none s = bool_encode-IsEncoder.writes B lawful false s

  pub option_encode-IsEncoder :
      {encode : Encode A} {bytes : A → List ℕ}
      → IsEncoder encode bytes
      → IsEncoder (option_encode encode) (option_bytes bytes)
  option_encode-IsEncoder e = record { writes = option-writes e }

  option-reads :
      {decode : Decode A} {bytes : A → List ℕ} {Valid : A → Type 0}
      (d : IsDecoder decode bytes Valid) (o : Option A) (rest : List ℕ)
      → IsSomeValid Valid o
      → option_decode decode (option_bytes bytes o ++ rest) ≡ (some o, rest)
  unfolding option_decode bool_decode
  option-reads d (some t) rest v = rw (d.reads t rest v)
  option-reads d none rest v = refl

  pub option_decode-IsDecoder :
      {decode : Decode A} {bytes : A → List ℕ} {Valid : A → Type 0}
      → IsDecoder decode bytes Valid
      → IsDecoder (option_decode decode) (option_bytes bytes) (IsSomeValid Valid)
  option_decode-IsDecoder d = record { reads = option-reads d }

module _ {R E : Type 0} where
  abbrev pub result_bytes : (R → List ℕ) → (E → List ℕ) → Result R E → List ℕ
  result_bytes bytes_ok bytes_err (ok r) = 1 ∷ bytes_ok r
  result_bytes bytes_ok bytes_err (err e) = 0 ∷ bytes_err e

  abbrev pub IsResultValid : (R → Type 0) → (E → Type 0) → Result R E → Type 0
  IsResultValid Valid_ok Valid_err (ok r) = Valid_ok r
  IsResultValid Valid_ok Valid_err (err e) = Valid_err e

  abbrev pub pair_bytes : (R → List ℕ) → (E → List ℕ) → R × E → List ℕ
  pair_bytes bytes_a bytes_b (a, b) = bytes_a a ++ bytes_b b

  module _ {encode_a : Encode R} {encode_b : Encode E} {bytes_a : R → List ℕ} {bytes_b : E → List ℕ}
      (ea : IsEncoder encode_a bytes_a) (eb : IsEncoder encode_b bytes_b) where
    result-writes :
        (B : Buffer)
        → IsBuffer B
        → (r : Result R E) (s : B.State)
        → result_encode encode_a encode_b B r s ≡ push_all B.push s (result_bytes bytes_a bytes_b r)
    unfolding result_encode
    result-writes B lawful (ok r) s =
        then-writes B s _ _ (1 ∷ []) (bytes_a r) (bool_encode-IsEncoder.writes B lawful true s)
          (ea.writes B lawful r)
    result-writes B lawful (err e) s =
        then-writes B s _ _ (0 ∷ []) (bytes_b e) (bool_encode-IsEncoder.writes B lawful false s)
          (eb.writes B lawful e)

    pub result_encode-IsEncoder :
        IsEncoder (result_encode encode_a encode_b) (result_bytes bytes_a bytes_b)
    result_encode-IsEncoder = record { writes = result-writes }

    pub pair_encode-IsEncoder :
        IsEncoder (pair_encode encode_a encode_b) (pair_bytes bytes_a bytes_b)
    unfolding pair_encode
    pair_encode-IsEncoder = record {
      writes = λ B lawful p s.
          then-writes B s _ _ (bytes_a p.0) (bytes_b p.1) (ea.writes B lawful p.0 s)
            (eb.writes B lawful p.1);
    }

  module _ {decode_a : Decode R} {decode_b : Decode E} {bytes_a : R → List ℕ} {bytes_b : E → List ℕ}
      {Valid_a : R → Type 0} {Valid_b : E → Type 0} (da : IsDecoder decode_a bytes_a Valid_a)
      (db : IsDecoder decode_b bytes_b Valid_b) where
    result-reads :
        (r : Result R E) (rest : List ℕ)
        → IsResultValid Valid_a Valid_b r
        → result_decode decode_a decode_b (result_bytes bytes_a bytes_b r ++ rest) ≡ (some r, rest)
    unfolding result_decode bool_decode
    result-reads (ok r) rest v = rw (da.reads r rest v)
    result-reads (err e) rest v = rw (db.reads e rest v)

    pub result_decode-IsDecoder :
        IsDecoder
          (result_decode decode_a decode_b)
          (result_bytes bytes_a bytes_b)
          (IsResultValid Valid_a Valid_b)
    result_decode-IsDecoder = record { reads = result-reads }

    pair-reads :
        (p : R × E) (rest : List ℕ)
        → Valid_a p.0 × Valid_b p.1
        → pair_decode decode_a decode_b (pair_bytes bytes_a bytes_b p ++ rest) ≡ (some p, rest)
    unfolding pair_decode
    pair-reads (a, b) rest (va, vb) = rw (
      append_assoc (bytes_a a) (bytes_b b) rest,
      da.reads a (bytes_b b ++ rest) va,
      db.reads b rest vb,
    )

    pub pair_decode-IsDecoder :
        IsDecoder
          (pair_decode decode_a decode_b)
          (pair_bytes bytes_a bytes_b)
          (λ p. Valid_a p.0 × Valid_b p.1)
    pair_decode-IsDecoder = record { reads = pair-reads }

-- Ranges and addresses.
module _ {T : Type 0} where
  abbrev pub range_bytes : (T → List ℕ) → Range T → List ℕ
  range_bytes bytes r = bytes r.start ++ bytes r.end

  pub range_encode-IsEncoder :
      {encode : Encode T} {bytes : T → List ℕ}
      → IsEncoder encode bytes
      → IsEncoder (range_encode encode) (range_bytes bytes)
  unfolding range_encode
  range_encode-IsEncoder {bytes} e = record {
    writes = λ B lawful r s.
        then-writes B s _ _ (bytes r.start) (bytes r.end) (e.writes B lawful r.start s)
          (e.writes B lawful r.end);
  }

  pub range_decode-IsDecoder :
      {decode : Decode T} {bytes : T → List ℕ} {Valid : T → Type 0}
      → IsDecoder decode bytes Valid
      → IsDecoder (range_decode decode) (range_bytes bytes) (λ r. Valid r.start × Valid r.end)
  unfolding range_decode
  range_decode-IsDecoder {bytes} d = record {
    reads = λ r rest v. rw (
      append_assoc (bytes r.start) (bytes r.end) rest,
      d.reads r.start (bytes r.end ++ rest) v.0,
      d.reads r.end rest v.1,
    );
  }

abbrev pub ip_bytes : IpAddr → List ℕ
ip_bytes (v4 octets) = 0 ∷ octets
ip_bytes (v6 octets) = 1 ∷ octets

-- Four octets or sixteen.
abbrev pub IsIp : IpAddr → Type 0
IsIp (v4 octets) = All (λ b. b < 256) octets × (length octets ≡ 4)
IsIp (v6 octets) = All (λ b. b < 256) octets × (length octets ≡ 16)

ip-writes :
    (B : Buffer)
    → IsBuffer B
    → (a : IpAddr) (s : B.State) → ip_encode B a s ≡ push_all B.push s (ip_bytes a)
unfolding ip_encode
ip-writes B lawful (v4 octets) s =
    then-writes B s _ _ (0 ∷ []) octets (u8_encode-IsEncoder.writes B lawful 0 s)
      (λ s'. lawful.extend_bytes s' octets)
ip-writes B lawful (v6 octets) s =
    then-writes B s _ _ (1 ∷ []) octets (u8_encode-IsEncoder.writes B lawful 1 s)
      (λ s'. lawful.extend_bytes s' octets)

concat_map-u8_bytes : (bs : List ℕ) → concat_map u8_bytes bs ≡ bs
concat_map-u8_bytes [] = refl
concat_map-u8_bytes (b ∷ bs) = ap (λ r. b ∷ r) (concat_map-u8_bytes bs)

octets-reads :
    (octets rest : List ℕ) (n : ℕ)
    → All (λ b. b < 256) octets × (length octets ≡ n)
    → times_decode u8_decode n (octets ++ rest) ≡ (some octets, rest)
octets-reads octets rest n (v, e) =
    rw (← e) (rw (concat_map-u8_bytes octets) at (times-reads u8_decode-IsDecoder octets rest v))

ip-reads : (a : IpAddr) (rest : List ℕ) → IsIp a → ip_decode (ip_bytes a ++ rest) ≡ (some a, rest)
unfolding ip_decode u8_decode
ip-reads (v4 octets) rest v = rw (octets-reads octets rest 4 v)
ip-reads (v6 octets) rest v = rw (octets-reads octets rest 16 v)

abbrev pub socket_bytes : SocketAddr → List ℕ
socket_bytes a = ip_bytes a.ip ++ int_bytes a.port

pub socket_encode-IsEncoder : IsEncoder socket_encode socket_bytes
unfolding socket_encode
socket_encode-IsEncoder = record {
  writes = λ B lawful a s.
      then-writes B s _ _ (ip_bytes a.ip) (int_bytes a.port) (ip-writes B lawful a.ip s)
        (int_encode-IsEncoder.writes B lawful a.port);
}

pub socket_decode-IsDecoder :
    IsDecoder socket_decode socket_bytes (λ a. IsIp a.ip × (a.port < 2 ^ 16))
unfolding socket_decode
socket_decode-IsDecoder = record {
  reads = λ a rest v. rw (
    append_assoc (ip_bytes a.ip) (int_bytes a.port) rest,
    ip-reads a.ip (int_bytes a.port ++ rest) v.0,
    (int_decode-IsDecoder 16 (omega arith)).reads a.port rest v.1,
  );
}
