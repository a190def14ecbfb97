-- ===== src/Codec/Text.antt =====
-- utils/codec/src/impls.rs and std_impls.rs: text. A string is the list of its bytes.
pub mod Laws
use onion_network.Base.{
  ℕ, Option, none, some, Bool, true, false, ◌&&◌, List, [], ◌∷◌, length, ltb, leb, ◌==◌,
  if◌then◌else◌,
}
use onion_network.Codec.Reader.{Decode, pure, fail, ◌>>=◌}
use onion_network.Codec.Seq.{bytes_decode}

abbrev tail_byte : ℕ × ℕ
tail_byte = (0x80, 0xbf)

-- The ranges of the bytes that follow a first byte, by the standard's table of well-formed UTF-8.
utf8_lead : ℕ → Option (List (ℕ × ℕ))
utf8_lead b =
    if ltb b 0x80
    then some []
    else if ltb b 0xc2
    then none
    else if ltb b 0xe0
    then some (tail_byte ∷ [])
    else if b == 0xe0
    then some ((0xa0, 0xbf) ∷ tail_byte ∷ [])
    else if b == 0xed
    then some ((0x80, 0x9f) ∷ tail_byte ∷ [])
    else if ltb b 0xf0
    then some (tail_byte ∷ tail_byte ∷ [])
    else if b == 0xf0
    then some ((0x90, 0xbf) ∷ tail_byte ∷ tail_byte ∷ [])
    else if ltb b 0xf4
    then some (tail_byte ∷ tail_byte ∷ tail_byte ∷ [])
    else if b == 0xf4
    then some ((0x80, 0x8f) ∷ tail_byte ∷ tail_byte ∷ [])
    else none

utf8_from : List (ℕ × ℕ) → List ℕ → Bool
utf8_from [] [] = true
utf8_from (r ∷ rs) [] = false
utf8_from [] (b ∷ bs) = elim (utf8_lead b) [ none ↦ false | some rs ↦ utf8_from rs bs ]
utf8_from ((lo, hi) ∷ rs) (b ∷ bs) = leb lo b && leb b hi && utf8_from rs bs

-- Whether `core::str::from_utf8` accepts the bytes.
unfoldable pub is_utf8 : List ℕ → Bool
unfolding utf8_lead utf8_from
is_utf8 = utf8_from []

-- `impl Decode for &str`, and for `String`.
unfoldable pub str_decode : Decode (List ℕ)
str_decode = do bytes ← bytes_decode; if is_utf8 bytes then pure bytes else fail

-- `impl Decode for ArrayString<LEN>`
unfoldable pub array_string_decode : ℕ → Decode (List ℕ)
array_string_decode cap = do
  bytes ← bytes_decode
  if is_utf8 bytes && leb (length bytes) cap then pure bytes else fail
