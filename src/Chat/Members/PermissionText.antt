-- ===== src/Chat/Members/PermissionText.antt =====
-- chat/spec/src/chat.rs: `Permissions` as text and as bytes. A text is the list of its code points.
use onion_network.Base.{
  ℕ, suc, ◌+◌, ◌*◌, ◌/◌, ◌%◌, ◌^◌, ◌<◌, ◌≡◌, refl, Option, none, some, Bool, true, false, List, [],
  ◌∷◌, ltb, not, ◌==◌, arith, if◌then◌else◌,
}
use mathlib.Core.Path.{ap}
use onion_network.Codec.Reader.{Decode, pure, fail, ◌>>=◌}
use onion_network.Codec.Traits.{Encode}
use onion_network.Codec.Int.{int_encode, int_decode}
use onion_network.Codec.Int.Laws.{int_encode-IsEncoder, int_decode-IsDecoder, int_bytes}
use onion_network.Codec.Traits.{to_bytes}
use onion_network.Codec.Traits.Laws.{to_bytes-eq}
use onion_network.Codec.RoundTrips.{ReadsAs}
use onion_network.Codec.Sum.{Result, ok, err}
use onion_network.Chat.Members.{Permissions, no_flags}

-- `FULL`: "sikr"
abbrev pub full : List ℕ
full = 115 ∷ 105 ∷ 107 ∷ 114 ∷ []

pub data PermissionsParseError : Type 0 where
  invalid_length : PermissionsParseError
  invalid_char : ℕ → ℕ → PermissionsParseError

abbrev flag_bit : Bool → ℕ
flag_bit b = if b then 1 else 0

abbrev pub bits : Permissions → ℕ
bits p = flag_bit p.send + 2 * flag_bit p.invite + 4 * flag_bit p.kick

unfoldable pub from_bits : ℕ → Option Permissions
from_bits b =
    if ltb b 8
    then some (record { send = b % 2 == 1; invite = b / 2 % 2 == 1; kick = b / 4 % 2 == 1 })
    else none

-- `str::len` counts bytes.
abbrev len_utf8 : ℕ → ℕ
len_utf8 c = if ltb c 128 then 1 else if ltb c 2048 then 2 else if ltb c 65536 then 3 else 4

abbrev text_len : List ℕ → ℕ
text_len [] = 0
text_len (c ∷ s) = len_utf8 c + text_len s

abbrev join : Permissions → Permissions → Permissions
join p q = record {
  send = if p.send then true else q.send;
  invite = if p.invite then true else q.invite;
  kick = if p.kick then true else q.kick;
}

-- The loop of `from_str` at place `i`; `none` is the panic on a letter without a flag.
unfoldable pub parse_flags :
    ℕ → List ℕ → List ℕ → Permissions → Option (Result Permissions PermissionsParseError)
parse_flags i (c ∷ s) (f ∷ fs) p =
    let skip = parse_flags (suc i) s fs p in
    let take_flag : Permissions → Option (Result Permissions PermissionsParseError) =
      λ q. parse_flags (suc i) s fs (join p q) in
    if c == f
    then elim (from_bits (2 ^ i)) [ none ↦ none | some q ↦ take_flag q ]
    else if not (c == 45)
    then some (err (invalid_char i f))
    else skip
parse_flags i _ _ p = some (ok p)

-- `from_str`
unfoldable pub parse_permissions : List ℕ → Option (Result Permissions PermissionsParseError)
parse_permissions s =
    if not (text_len s == 4) then some (err invalid_length) else parse_flags 0 s full no_flags

-- The loop of `fmt`.
unfoldable pub show_flags : ℕ → List ℕ → List ℕ
show_flags mask [] = []
show_flags mask (c ∷ cs) = (if mask % 2 == 0 then 45 else c) ∷ show_flags (mask / 2) cs

unfoldable pub show_permissions : Permissions → List ℕ
unfolding show_flags
show_permissions p = show_flags (bits p) full

unfoldable pub permissions_encode : Encode Permissions
permissions_encode B p s = int_encode B (bits p) s

abbrev of_bits : Option Permissions → Decode Permissions
of_bits none = fail
of_bits (some p) = pure p

unfoldable pub permissions_decode : Decode Permissions
permissions_decode = do b ← int_decode 32; of_bits (from_bits b)

-- Permissions that are shown are parsed as themselves.
pub parse_permissions-show_permissions :
    (p : Permissions) → parse_permissions (show_permissions p) ≡ some (ok p)
unfolding parse_permissions parse_flags from_bits show_permissions show_flags
parse_permissions-show_permissions p = by_flags p.send p.invite p.kick
  where
    by_flags :
        (s i k : Bool)
        → parse_permissions (show_permissions (record { send = s; invite = i; kick = k }))
          ≡ some (ok (record { send = s; invite = i; kick = k }))
    by_flags false false false = refl
    by_flags false false true = refl
    by_flags false true false = refl
    by_flags false true true = refl
    by_flags true false false = refl
    by_flags true false true = refl
    by_flags true true false = refl
    by_flags true true true = refl

-- A text of four ASCII letters with an `r` at its end, and at the other places the letter of the
-- flag or a dash, panics.
pub parse_permissions-panics :
    (s i k : Bool)
    → parse_permissions
        ((if s then 115 else 45) ∷ (if i then 105 else 45) ∷ (if k then 107 else 45) ∷ 114 ∷ [])
      ≡ none
unfolding parse_permissions parse_flags from_bits
parse_permissions-panics false false false = refl
parse_permissions-panics false false true = refl
parse_permissions-panics false true false = refl
parse_permissions-panics false true true = refl
parse_permissions-panics true false false = refl
parse_permissions-panics true false true = refl
parse_permissions-panics true true false = refl
parse_permissions-panics true true true = refl

from_bits-bits : (p : Permissions) → from_bits (bits p) ≡ some p
unfolding from_bits
from_bits-bits p = by_flags p.send p.invite p.kick
  where
    by_flags :
        (s i k : Bool)
        → from_bits (bits (record { send = s; invite = i; kick = k }))
          ≡ some (record { send = s; invite = i; kick = k })
    by_flags false false false = refl
    by_flags false false true = refl
    by_flags false true false = refl
    by_flags false true true = refl
    by_flags true false false = refl
    by_flags true false true = refl
    by_flags true true false = refl
    by_flags true true true = refl

-- Permissions are read back from their bytes.
pub permissions_round_trip :
    (p : Permissions) (rest : List ℕ) → ReadsAs permissions_encode permissions_decode p p rest
unfolding permissions_encode permissions_decode to_bytes
permissions_round_trip p rest =
    let small : bits p < 2 ^ 32 = ground arith in
    (
      int_bytes (bits p),
      to_bytes-eq int_encode-IsEncoder (bits p),
      rw ((int_decode-IsDecoder 32 (omega arith)).reads (bits p) rest small)
          (ap (λ (o : Option Permissions). of_bits o rest) (from_bits-bits p)),
    )
