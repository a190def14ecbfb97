-- ===== src/Chat/Messages/Unpack.antt =====
-- What the iterator yields, and that it looks only at the end of the buffer. A slice has fewer than
-- 2 ^ 63 bytes.
use onion_network.Base.{
  ℕ, ◌+◌, ◌-◌, ◌^◌, ◌<◌, ◌≤◌, ◌≡◌, sym, ◌∙◌, none, some, true, false, List, [], ◌∷◌, ◌++◌,
  append_assoc, length, length-append, length-take, length-drop, take, drop, take-length-append,
  drop-length-append, take-append-drop, ltb, ltb→lt, ltb→le, lt→ltb, le→ltb, Bool-cases, ◌⊎◌, inl,
  inr, arith,
}
use onion_network.Chat.Messages.{from_be_bytes, wrapping_sub, take_from, next_message}

wrapping_sub-le : (a b : ℕ) → b ≤ a → a < 2 ^ 64 → wrapping_sub a b ≡ a - b
unfolding wrapping_sub
wrapping_sub-le a b h k = omega arith

wrapping_sub-lt : (a b : ℕ) → a < b → b < 2 ^ 63 → a < wrapping_sub a b
unfolding wrapping_sub
wrapping_sub-lt a b h k = omega arith

take_from-le : (n : ℕ) (b : List ℕ) → n ≤ length b → take_from n b ≡ some (drop n b, take n b)
unfolding take_from
take_from-le n b h = rw (le→ltb _ _ h)

take_from-lt : (n : ℕ) (b : List ℕ) → length b < n → take_from n b ≡ none
unfolding take_from
take_from-lt n b h = rw (lt→ltb _ _ h)

take_from-append : (xs ys : List ℕ) → take_from (length xs) (xs ++ ys) ≡ some (ys, xs)
take_from-append xs ys =
    take_from-le (length xs) (xs ++ ys) (omega (arith, length-append xs ys))
    ∙ rw (take-length-append xs ys, drop-length-append xs ys)

-- `lb` is the two bytes that give the length of `m`.
pub record IsLength (m lb : List ℕ) : Type 0 where
  pub two : length lb ≡ 2
  pub value : from_be_bytes lb ≡ length m

-- The tests by which the loop of `retain_messages` stops.
abbrev pub IsShort : List ℕ → Type 0
IsShort b =
    (ltb (length b) 2 ≡ true)
    ⊎ ((ltb (length b) 2 ≡ false)
        × (ltb (length b) (from_be_bytes (drop (length b - 2) b) + 2) ≡ true))

-- Whether a buffer ends in a whole message.
pub data Ending (b : List ℕ) : Type 0 where
  stop : next_message b ≡ none → IsShort b → Ending b
  more :
      (rest m lb : List ℕ)
      → b ≡ rest ++ (m ++ lb)
      → IsLength m lb
      → next_message b ≡ some (m, rest)
      → Ending b

next_message-split :
    (b : List ℕ)
    → 2 ≤ length b
    → length b < 2 ^ 63
    → next_message b
      ≡ (let n = length b - 2 in take_from (wrapping_sub n (from_be_bytes (drop n b))) (take n b))
unfolding next_message
next_message-split b h k =
    let n = length b - 2 in
    let start : wrapping_sub (length b) 2 ≡ n = wrapping_sub-le (length b) 2 h (omega arith) in
    let left : length (take n b) ≡ n = omega (arith, length-take n b) in
    rw (start, take_from-le n b (omega arith), left)

from_be_bytes-lt : (lb : List ℕ) → from_be_bytes lb < 2 ^ 16
unfolding from_be_bytes
from_be_bytes-lt [] = omega arith
from_be_bytes-lt (a ∷ []) = omega arith
from_be_bytes-lt (a ∷ b ∷ []) = omega arith
from_be_bytes-lt (a ∷ b ∷ c ∷ r) = omega arith

Ending-many : (b : List ℕ) → ltb (length b) 2 ≡ false → length b < 2 ^ 63 → Ending b
Ending-many b h k = elim (Bool-cases (ltb (length b) (from_be_bytes (drop (length b - 2) b) + 2))) [
  | inl short ↦
      stop
        (next_message-split b (ltb→le _ _ h) k
          ∙ take_from-lt _ _ (
              omega (
                arith,
                length-take n b,
                wrapping_sub-lt n len (omega (arith, ltb→le _ _ h, ltb→lt _ _ short))
                    (omega (arith, from_be_bytes-lt lb)),
              )))
        (inr (h, short))
  | inr whole ↦
      let room : len ≤ n = omega (arith, ltb→le _ _ h, ltb→le _ _ whole) in
      let start : wrapping_sub n len ≡ n - len = wrapping_sub-le n len room (omega arith) in
      let left : length front ≡ n = omega (arith, length-take n b) in
      more (take (n - len) front) (drop (n - len) front) lb
        (sym (
          sym (append_assoc (take (n - len) front) (drop (n - len) front) lb)
          ∙ rw (take-append-drop (n - len) front) (take-append-drop n b)))
        (record {
          two = omega (arith, length-drop n b, ltb→le _ _ h);
          value = omega (arith, length-drop (n - len) front);
        })
        (next_message-split b (ltb→le _ _ h) k
          ∙ rw start (take_from-le (n - len) front (omega arith)))
]
  where
    n : ℕ
    n = length b - 2

    lb : List ℕ
    lb = drop n b

    len : ℕ
    len = from_be_bytes lb

    front : List ℕ
    front = take n b

pub next_message-Ending : (b : List ℕ) → length b < 2 ^ 63 → Ending b
next_message-Ending b k = elim (Bool-cases (ltb (length b) 2)) [
  | inl few ↦
      stop
        (unfold next_message in
          rw (take_from-lt _ b (wrapping_sub-lt _ 2 (ltb→lt _ _ few) (omega arith))))
        (inl few)
  | inr many ↦ Ending-many b many k
]

pub IsLength-append :
    (pre m lb : List ℕ) → IsLength m lb → length (pre ++ (m ++ lb)) ≡ length pre + length m + 2
IsLength-append pre m lb l = omega (arith, length-append pre (m ++ lb), length-append m lb, l.two)

-- Whatever stands in front of it, a message with its length is the next one.
pub next_message-append :
    (pre m lb : List ℕ)
    → IsLength m lb
    → length (pre ++ (m ++ lb)) < 2 ^ 63
    → next_message (pre ++ (m ++ lb)) ≡ some (m, pre)
unfolding next_message
next_message-append pre m lb l k =
    let whole : length ((pre ++ m) ++ lb) < 2 ^ 63 = rw append_assoc k in
    let end : wrapping_sub (length ((pre ++ m) ++ lb)) 2 ≡ length (pre ++ m) =
      wrapping_sub-le _ 2 (omega (arith, length-append (pre ++ m) lb, l.two)) (omega arith)
      ∙ omega (arith, length-append (pre ++ m) lb, l.two) in
    let start : wrapping_sub (length (pre ++ m)) (from_be_bytes lb) ≡ length pre =
      wrapping_sub-le _ (from_be_bytes lb) (omega (arith, length-append pre m, l.value))
        (omega (arith, length-append (pre ++ m) lb))
      ∙ omega (arith, length-append pre m, l.value) in
    rw (← append_assoc pre m lb, end, take_from-append (pre ++ m) lb, start, take_from-append pre m)
