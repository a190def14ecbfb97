-- ===== src/Codec/Sum.antt =====
-- utils/codec/src/impls.rs: options, results, tuples, ranges, addresses and what has no value or no
-- bytes.
pub mod Laws
use onion_network.Base.{
  ℕ, zero, suc, Option, none, some, Bool, true, false, List, [], ◌∷◌, ◌++◌, length, ltb, ◌==◌,
  if◌then◌else◌,
}
use onion_network.Base.Opt
use onion_network.Codec.Buffer.{Buffer}
use onion_network.Codec.Reader.{Decode, pure, fail, ◌>>=◌}
use onion_network.Codec.Traits.{Encode}
use onion_network.Codec.Int.{bool_encode, bool_decode, u8_encode, u8_decode, int_encode, int_decode}
use onion_network.Codec.Seq.{each_encode, times_decode}

module _ {A : Type 0} where
  unfoldable pub option_encode : Encode A → Encode (Option A)
  option_encode encode B (some t) s = Opt.◌>>=◌ (bool_encode B true s) (encode B t)
  option_encode encode B none s = bool_encode B false s

  unfoldable pub option_decode : Decode A → Decode (Option A)
  option_decode decode = do
    is_some ← bool_decode
    if is_some then (do t ← decode; pure (some t)) else pure none

-- Rust's `Result`.
pub data Result (R E : Type 0) : Type 0 where
  ok : R → Result R E
  err : E → Result R E

module _ {R E : Type 0} where
  unfoldable pub result_encode : Encode R → Encode E → Encode (Result R E)
  result_encode encode_ok encode_err B (ok r) s = Opt.◌>>=◌ (bool_encode B true s) (encode_ok B r)
  result_encode encode_ok encode_err B (err e) s =
      Opt.◌>>=◌ (bool_encode B false s) (encode_err B e)

  unfoldable pub result_decode : Decode R → Decode E → Decode (Result R E)
  result_decode decode_ok decode_err = do
    is_ok ← bool_decode
    if is_ok then (do r ← decode_ok; pure (ok r)) else (do e ← decode_err; pure (err e))

  -- `derive_tuples!`: the fields in order. A longer tuple is a pair whose second field is the rest.
  unfoldable pub pair_encode : Encode R → Encode E → Encode (R × E)
  pair_encode encode_a encode_b B (a, b) s = Opt.◌>>=◌ (encode_a B a s) (encode_b B b)

  unfoldable pub pair_decode : Decode R → Decode E → Decode (R × E)
  pair_decode decode_a decode_b = do a ← decode_a; b ← decode_b; pure (a, b)

-- `core::ops::Range`.
pub record Range (T : Type 0) : Type 0 where
  pub start : T
  pub end : T

module _ {T : Type 0} where
  unfoldable pub range_encode : Encode T → Encode (Range T)
  range_encode encode B r s = Opt.◌>>=◌ (encode B r.start s) (encode B r.end)

  unfoldable pub range_decode : Decode T → Decode (Range T)
  range_decode decode = do start ← decode; end ← decode; pure (record { start = start; end = end })

-- `Infallible` has no value to write, and never decodes.
unfoldable pub infallible_encode : Encode (⊥)
infallible_encode B a s = absurd a

unfoldable pub infallible_decode : Decode (⊥)
infallible_decode = fail

-- The octets of an address.
pub data IpAddr : Type 0 where
  v4 v6 : List ℕ → IpAddr

unfoldable pub ip_encode : Encode IpAddr
ip_encode B (v4 octets) s = Opt.◌>>=◌ (u8_encode B 0 s) (λ s'. B.extend_from_slice s' octets)
ip_encode B (v6 octets) s = Opt.◌>>=◌ (u8_encode B 1 s) (λ s'. B.extend_from_slice s' octets)

unfoldable pub ip_decode : Decode IpAddr
ip_decode = do
  tag ← u8_decode
  if tag == 0
      then (do octets ← times_decode u8_decode 4; pure (v4 octets))
      else if tag == 1
      then (do octets ← times_decode u8_decode 16; pure (v6 octets))
      else fail

pub record SocketAddr : Type 0 where
  pub ip : IpAddr
  pub port : ℕ

unfoldable pub socket_encode : Encode SocketAddr
socket_encode B a s = Opt.◌>>=◌ (ip_encode B a.ip s) (int_encode B a.port)

unfoldable pub socket_decode : Decode SocketAddr
socket_decode = do ip ← ip_decode; port ← int_decode 16; pure (record { ip = ip; port = port })
