-- ===== src/Codec/Int.antt =====
-- utils/codec/src/impls.rs: integers, `bool`, `u8` and `()`.
-- Of a number `x`, `x & 0b0111_1111` is `x % 128` and `x >> 7` is `x / 128`; of a byte,
-- `x & 0b1000_0000 == 0` is `x < 128`. A group of seven bits has no eighth bit, so `|= 0b1000_0000`
-- adds 128; the groups of a value do not overlap, so `value |= group << shift` adds too.
pub mod Laws
use onion_network.Base.{
  ℕ, zero, suc, ◌+◌, ◌*◌, ◌/◌, ◌%◌, ◌^◌, Option, none, some, Bool, true, false, List, [], ◌∷◌, ltb,
  ◌==◌, if◌then◌else◌,
}
use onion_network.Base.Opt
use onion_network.Codec.Buffer.{Buffer}
use onion_network.Codec.Reader.{Decode, pure, fail, ◌>>=◌}

-- The loop of `base128_encode`, with fuel: a `u64` has at most ten groups.
unfoldable pub base128_encode_loop : ℕ → (B : Buffer) → ℕ → B.State → Option B.State
base128_encode_loop zero B value s = none
base128_encode_loop (suc fuel) B value s =
    let byte = value % 128 in
    let value' = value / 128 in
    let rest = λ (s' : B.State). base128_encode_loop fuel B value' s' in
    Opt.◌>>=◌ (B.push s (if value' == 0 then byte else byte + 128))
      (λ s'. if value' == 0 then some s' else rest s')

unfoldable pub base128_encode : (B : Buffer) → ℕ → B.State → Option B.State
unfolding base128_encode_loop
base128_encode = base128_encode_loop 10

-- The `for` loop of `base128_decode` over the bytes that are left, at most `rounds` of them. The
-- shift drops what leaves the 64 bits.
unfoldable pub base128_decode_loop : ℕ → ℕ → ℕ → List ℕ → Option (ℕ × List ℕ)
base128_decode_loop zero value shift bs = none
base128_decode_loop (suc rounds) value shift [] = none
base128_decode_loop (suc rounds) value shift (byte ∷ bs) =
    let value' = value + byte % 128 * 2 ^ shift % 2 ^ 64 in
    let rest = base128_decode_loop rounds value' (shift + 7) bs in
    if ltb byte 128 then some (value', bs) else rest

abbrev advance : List ℕ → Option (ℕ × List ℕ) → Option ℕ × List ℕ
advance buffer none = (none, buffer)
advance buffer (some (value, rest)) = (some value, rest)

-- The buffer is left alone on failure.
unfoldable pub base128_decode : Decode ℕ
unfolding base128_decode_loop
base128_decode buffer = advance buffer (base128_decode_loop 10 0 0 buffer)

-- `impl_int!` for every type of the list: `*self as u64`, and `try_into` into `width` bits.
unfoldable pub int_encode : (B : Buffer) → ℕ → B.State → Option B.State
int_encode B value = base128_encode B (value % 2 ^ 64)

unfoldable pub int_decode : ℕ → Decode ℕ
int_decode width = do value ← base128_decode; if ltb value (2 ^ width) then pure value else fail

unfoldable pub usize_decode : Decode ℕ
unfolding int_decode
usize_decode = int_decode 64

unfoldable pub bool_encode : (B : Buffer) → Bool → B.State → Option B.State
bool_encode B true s = B.push s 1
bool_encode B false s = B.push s 0

unfoldable pub bool_decode : Decode Bool
bool_decode [] = (none, [])
bool_decode (byte ∷ rest) =
    if byte == 1
    then (some true, rest)
    else if byte == 0
    then (some false, rest)
    else (none, byte ∷ rest)

unfoldable pub u8_encode : (B : Buffer) → ℕ → B.State → Option B.State
u8_encode B byte s = B.push s byte

unfoldable pub u8_decode : Decode ℕ
u8_decode [] = (none, [])
u8_decode (byte ∷ rest) = (some byte, rest)

unfoldable pub unit_encode : (B : Buffer) → Unit {0} → B.State → Option B.State
unit_encode B u s = some s

unfoldable pub unit_decode : Decode (Unit {0})
unit_decode = pure tt
