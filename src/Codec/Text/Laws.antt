-- ===== src/Codec/Text/Laws.antt =====
-- Text that is valid is read back, and no other text is ever read.
use mathlib.Core.Path.{subst}
use onion_network.Base.{
  ℕ, ◌<◌, ◌≤◌, ◌^◌, ◌≡◌, ◌≢◌, sym, ap, ◌∙◌, Bool, true, false, Option, none, some, List, [], ◌∷◌,
  length, leb, ltb, ◌==◌, All, if◌then◌else◌, Option-cases, inl, inr, arith,
}
use onion_network.Codec.Traits.{IsDecoder}
use onion_network.Codec.Seq.Laws.{slice_bytes, bytes_decode-IsDecoder}
use onion_network.Codec.Text.{
  tail_byte, utf8_lead, utf8_from, is_utf8, str_decode, array_string_decode,
}

-- What an `ArrayString` holds.
abbrev pub IsText : ℕ → List ℕ → Type 0
IsText cap bytes = (is_utf8 bytes ≡ true) × (length bytes ≤ cap)

le→leb : (a b : ℕ) → a ≤ b → leb a b ≡ true
le→leb a b h = ground arith

pub str_decode-IsDecoder :
    IsDecoder str_decode slice_bytes (λ bs. (is_utf8 bs ≡ true) × (length bs < 2 ^ 64))
unfolding str_decode
str_decode-IsDecoder = record {
  reads = λ bs rest v. rw (bytes_decode-IsDecoder.reads bs rest v.1, v.0);
}

pub array_string_decode-IsDecoder :
    (cap : ℕ)
    → IsDecoder (array_string_decode cap) slice_bytes (λ bs. IsText cap bs × (length bs < 2 ^ 64))
unfolding array_string_decode
array_string_decode-IsDecoder cap = record {
  reads = λ bs rest v.
      rw (bytes_decode-IsDecoder.reads bs rest v.1, v.0.0, le→leb (length bs) cap v.0.1);
}

-- Whatever the input, a text that is read is valid and fits.
pub array_string_decode-IsText :
    (cap : ℕ) (buffer : List ℕ) {bytes rest : List ℕ}
    → array_string_decode cap buffer ≡ (some bytes, rest)
    → IsText cap bytes
unfolding array_string_decode
array_string_decode-IsText cap buffer h = ground arith

-- No range of the table has the byte 0xff.
AreLow : Option (List (ℕ × ℕ)) → Type 0
AreLow none = Unit
AreLow (some rs) = All (λ r. r.1 < 255) rs

none_low : AreLow none
unfolding AreLow
none_low = tt

some_low : (rs : List (ℕ × ℕ)) → All (λ r. r.1 < 255) rs → AreLow (some rs)
unfolding AreLow
some_low rs low = low

from_low : (rs : List (ℕ × ℕ)) → AreLow (some rs) → All (λ r. r.1 < 255) rs
unfolding AreLow
from_low rs low = low

if_low :
    (c : Bool) (x y : Option (List (ℕ × ℕ))) → AreLow x → AreLow y → AreLow (if c then x else y)
if_low true x y low_x low_y = low_x
if_low false x y low_x low_y = low_y

-- A first range, and one or two more of the kind that ends a character.
one_low : (r : ℕ × ℕ) → r.1 < 255 → AreLow (some (r ∷ []))
one_low r low = some_low _ (low, tt)

two_low : (r : ℕ × ℕ) → r.1 < 255 → AreLow (some (r ∷ tail_byte ∷ []))
two_low r low = some_low _ (low, (omega arith, tt))

three_low : (r : ℕ × ℕ) → r.1 < 255 → AreLow (some (r ∷ tail_byte ∷ tail_byte ∷ []))
three_low r low = some_low _ (low, (omega arith, (omega arith, tt)))

utf8_lead-AreLow : (b : ℕ) → AreLow (utf8_lead b)
unfolding utf8_lead
utf8_lead-AreLow b = if_low (ltb b 0x80) _ _ (some_low [] tt) (
    if_low (ltb b 0xc2) _ _ none_low (
      if_low (ltb b 0xe0) _ _ (one_low tail_byte (omega arith)) (
        if_low (b == 0xe0) _ _ (two_low (0xa0, 0xbf) (omega arith)) (
          if_low (b == 0xed) _ _ (two_low (0x80, 0x9f) (omega arith)) (
            if_low (ltb b 0xf0) _ _ (two_low tail_byte (omega arith)) (
              if_low (b == 0xf0) _ _ (three_low (0x90, 0xbf) (omega arith)) (
                if_low (ltb b 0xf4) _ _ (three_low tail_byte (omega arith))
                  (if_low (b == 0xf4) _ _ (three_low (0x80, 0x8f) (omega arith)) none_low))))))))

no_lead_255 : (rs : List (ℕ × ℕ)) → utf8_lead 255 ≡ some rs → ⊥
unfolding utf8_lead
no_lead_255 rs e = cc

utf8_from-clean :
    (rs : List (ℕ × ℕ)) (bs : List ℕ)
    → All (λ r. r.1 < 255) rs
    → utf8_from rs bs ≡ true
    → All (λ b. b ≢ 255) bs
unfolding utf8_from
utf8_from-clean [] [] ranges text = tt
utf8_from-clean (r ∷ rs) [] ranges text = tt
utf8_from-clean ((lo, hi) ∷ rs) (b ∷ bs) (small, ranges) text =
    (below, utf8_from-clean rs bs ranges (ground (arith, text)))
  where
    below : b ≢ 255
    below = ground (arith, text, small)
utf8_from-clean [] (b ∷ bs) ranges text = elim (Option-cases (utf8_lead b)) [
  | inl missing ↦ absurd (let at = rw (utf8_from, missing) at text in ground (arith, at))
  | inr (rs, found) ↦ (
    λ e. no_lead_255 rs (sym (ap utf8_lead e) ∙ found),
    utf8_from-clean rs bs (from_low rs (subst AreLow found (utf8_lead-AreLow b)))
        (let at = rw (utf8_from, found) at text in at),
  )
]

-- Valid text has no byte 0xff.
pub is_utf8-clean : (bs : List ℕ) → is_utf8 bs ≡ true → All (λ b. b ≢ 255) bs
unfolding is_utf8
is_utf8-clean bs text = utf8_from-clean [] bs tt text
