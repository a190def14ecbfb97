-- ===== src/Codec/Int/Laws.antt =====
-- The wire format of integers and of `bool`, `u8` and `()`, and that they are read back.
use native.Mathlib.Nat.{div-add-mod, pow-le-pow_right}
use native.Mathlib.Numerals.{towards_suc}
use onion_network.Base.{
  ℕ, zero, suc, ◌+◌, ◌*◌, ◌/◌, ◌%◌, ◌^◌, ◌<◌, ◌≤◌, ◌≡◌, refl, ap, some, Bool, true, false, List, [],
  ◌∷◌, ◌++◌, length, arith, ltb, ◌==◌, if◌then◌else◌, inl, inr, Bool-cases, ltb→lt, ltb→le, lt→ltb,
  ◌∙◌, sym,
}
use mathlib.Core.Path.{fun_ext}
use onion_network.Base.Opt.{◌>>=◌, bind_some}
use onion_network.Codec.Buffer.{Buffer, push_all}
use onion_network.Codec.Traits.{IsEncoder, IsDecoder}
use onion_network.Codec.Int.{
  base128_encode_loop, base128_encode, base128_decode_loop, base128_decode, int_encode, int_decode,
  bool_encode, bool_decode, u8_encode, u8_decode,
}

-- Base 128 digits, lowest first, all but the last with the eighth bit set: `k + 1` digits at most.
unfoldable pub digits : ℕ → ℕ → List ℕ
digits zero v = v ∷ []
digits (suc k) v =
    let rest = digits k (v / 128) in if ltb v 128 then v ∷ [] else (v % 128 + 128) ∷ rest

abbrev pub int_bytes : ℕ → List ℕ
int_bytes v = digits 9 (v % 2 ^ 64)

last-writes :
    (fuel : ℕ) (B : Buffer) (v : ℕ) (s : B.State)
    → v < 128
    → base128_encode_loop (suc fuel) B v s ≡ push_all B.push s (v ∷ [])
unfolding base128_encode_loop push_all
last-writes fuel B v s h =
    let small : (v / 128 == 0) ≡ true = ground arith in
    let same : v % 128 ≡ v = omega arith in simp (small, same)

more-writes :
    (fuel : ℕ) (B : Buffer) (v : ℕ) (s : B.State)
    → 128 ≤ v
    → base128_encode_loop (suc fuel) B v s
      ≡ (B.push s (v % 128 + 128) >>= base128_encode_loop fuel B (v / 128))
unfolding base128_encode_loop
more-writes fuel B v s h = let big : (v / 128 == 0) ≡ false = ground arith in simp big

-- The loop writes the digits.
loop-writes :
    (k : ℕ) (B : Buffer) (v : ℕ) (s : B.State)
    → v < 128 ^ suc k
    → base128_encode_loop (suc k) B v s ≡ push_all B.push s (digits k v)
unfolding digits push_all
loop-writes zero B v s h = last-writes zero B v s (omega arith)
loop-writes (suc k) B v s h = elim (Bool-cases (ltb v 128)) [
  | inl small ↦ rw small (last-writes (suc k) B v s (ltb→lt _ _ small))
  | inr big ↦ rw big (
      more-writes (suc k) B v s (ltb→le _ _ big)
      ∙ ap (λ f. B.push s (v % 128 + 128) >>= f)
          (fun_ext (λ s'. loop-writes k B (v / 128) s' (omega arith))))
]

-- One round of the reader on a last byte, and on a byte with the eighth bit set.
last-reads :
    (k v value shift : ℕ) (rest : List ℕ)
    → v < 128
    → value + v * 2 ^ shift < 2 ^ 64
    → base128_decode_loop (suc k) value shift (v ∷ rest) ≡ some (value + v * 2 ^ shift, rest)
unfolding base128_decode_loop
last-reads k v value shift rest h fits = ground arith

more-reads :
    (k g value shift : ℕ) (rest : List ℕ)
    → g < 128
    → value + g * 2 ^ shift < 2 ^ 64
    → base128_decode_loop (suc k) value shift ((g + 128) ∷ rest)
      ≡ base128_decode_loop k (value + g * 2 ^ shift) (shift + 7) rest
unfolding base128_decode_loop
more-reads k g value shift rest h fits = ground arith

-- What is above the lowest digit of `v`, moved by seven bits.
shift_digit : (v s : ℕ) → v % 128 * 2 ^ s + v / 128 * 2 ^ (s + 7) ≡ v * 2 ^ s
shift_digit v s =
    let seven : 2 ^ (s + 7) ≡ 128 * 2 ^ s = simp towards_suc (omega arith) in
    omega (arith, ap (λ (t : ℕ). t * 2 ^ s) (div-add-mod v 128), ap (λ (t : ℕ). v / 128 * t) seven)

-- The bytes of a value at bit `shift` add it to what is read so far.
loop-reads :
    (k v value shift : ℕ) (rest : List ℕ)
    → v < 128 ^ suc k
    → value + v * 2 ^ shift < 2 ^ 64
    → base128_decode_loop (suc k) value shift (digits k v ++ rest)
      ≡ some (value + v * 2 ^ shift, rest)
unfolding digits
loop-reads zero v value shift rest h fits = last-reads zero v value shift rest (omega arith) fits
loop-reads (suc k) v value shift rest h fits = elim (Bool-cases (ltb v 128)) [
  | inl small ↦ rw small (last-reads (suc k) v value shift rest (ltb→lt _ _ small) fits)
  | inr big ↦ rw big (
      ground (
        arith,
        more-reads (suc k) (v % 128) value shift (digits k (v / 128) ++ rest),
        shift_digit v shift,
        loop-reads k (v / 128) (value + v % 128 * 2 ^ shift) (shift + 7) rest (omega arith),
      ))
]

-- Every `u64`, written to any buffer, is its digits: ten rounds of the loop are enough.
pub base128-writes :
    (B : Buffer) (v : ℕ) (s : B.State)
    → v < 2 ^ 64
    → base128_encode B v s ≡ push_all B.push s (digits 9 v)
unfolding base128_encode
base128-writes B v s h = loop-writes 9 B v s (omega arith)

pub base128-reads :
    (v : ℕ) (rest : List ℕ) → v < 2 ^ 64 → base128_decode (digits 9 v ++ rest) ≡ (some v, rest)
unfolding base128_decode
base128-reads v rest h = ground (arith, loop-reads 9 v 0 0 rest)

pub int_encode-IsEncoder : IsEncoder int_encode int_bytes
unfolding int_encode
int_encode-IsEncoder = record {
  writes = λ B lawful v s. base128-writes B (v % 2 ^ 64) s (omega arith);
}

pow_mono : (a b : ℕ) → a ≤ b → 2 ^ a ≤ 2 ^ b
pow_mono a b h = pow-le-pow_right (omega arith) h

-- A value of at most 64 bits is read back as itself by the type that it was written by.
pub int_decode-IsDecoder : (w : ℕ) → w ≤ 64 → IsDecoder (int_decode w) int_bytes (λ v. v < 2 ^ w)
unfolding int_decode
int_decode-IsDecoder w hw = record {
  reads = λ v rest h.
      let bound : v < 2 ^ 64 = omega (arith, pow_mono w 64 hw) in
      let same : v % 2 ^ 64 ≡ v = omega arith in
      let fits : ltb v (2 ^ w) ≡ true = lt→ltb _ _ h in rw (same, base128-reads v rest bound, fits);
}

-- What a type wider than `u64` reads back is its value without the bits above the 64th.
pub int_decode-int_bytes :
    (w : ℕ) (v : ℕ) (rest : List ℕ)
    → 64 ≤ w
    → int_decode w (int_bytes v ++ rest) ≡ (some (v % 2 ^ 64), rest)
unfolding int_decode
int_decode-int_bytes w v rest hw =
    let fits : ltb (v % 2 ^ 64) (2 ^ w) ≡ true = lt→ltb _ _ (omega (arith, pow_mono 64 w hw)) in
    rw (base128-reads (v % 2 ^ 64) rest (omega arith), fits)

abbrev pub bool_bytes : Bool → List ℕ
bool_bytes true = 1 ∷ []
bool_bytes false = 0 ∷ []

bool-writes :
    (B : Buffer) (b : Bool) (s : B.State) → bool_encode B b s ≡ push_all B.push s (bool_bytes b)
unfolding bool_encode push_all
bool-writes B true s = sym (bind_some (B.push s 1))
bool-writes B false s = sym (bind_some (B.push s 0))

pub bool_encode-IsEncoder : IsEncoder bool_encode bool_bytes
bool_encode-IsEncoder = record { writes = λ B lawful b s. bool-writes B b s }

pub bool_decode-IsDecoder : IsDecoder bool_decode bool_bytes (λ b. Unit)
unfolding bool_decode
bool_decode-IsDecoder = record { reads = elim [ true ↦ λ rest h. refl | false ↦ λ rest h. refl ] }

abbrev pub u8_bytes : ℕ → List ℕ
u8_bytes b = b ∷ []

pub u8_encode-IsEncoder : IsEncoder u8_encode u8_bytes
unfolding u8_encode push_all
u8_encode-IsEncoder = record { writes = λ B lawful b s. sym (bind_some (B.push s b)) }

pub u8_decode-IsDecoder : IsDecoder u8_decode u8_bytes (λ b. b < 256)
unfolding u8_decode
u8_decode-IsDecoder = record { reads = λ b rest h. refl }

pub length-int_bytes : (v : ℕ) → 1 ≤ length (int_bytes v)
unfolding digits
length-int_bytes v = elim (Bool-cases (ltb (v % 2 ^ 64) 128)) [
  | inl small ↦ rw small (omega arith)
  | inr big ↦ rw big (omega arith)
]
