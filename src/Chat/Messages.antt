-- ===== src/Chat/Messages.antt =====
-- chat/spec/src/chat.rs: packed messages. A buffer of messages is read from its end: each message
-- stands in front of its length, two bytes, high byte first.
-- An offset into the buffer stands for a pointer. The predicate of `retain_messages` is a function:
-- the program's callers do not change the messages in it.
pub mod Unpack
pub mod Slices
mod Move
pub mod Retain
pub mod Filter
mod Tests
use onion_network.Base.{
  ℕ, zero, suc, ◌+◌, ◌-◌, ◌*◌, ◌%◌, ◌^◌, Option, none, some, Bool, true, false, List, [], ◌∷◌, ◌++◌,
  length, take, drop, ltb, ◌==◌, if◌then◌else◌,
}
use onion_network.Base.Opt.{◌>>=◌}

-- `u16::from_be_bytes`; the callers hand it two bytes.
unfoldable pub from_be_bytes : List ℕ → ℕ
from_be_bytes (hi ∷ lo ∷ []) = (hi * 256 + lo) % 2 ^ 16
from_be_bytes _ = 0

-- `usize::wrapping_sub`
unfoldable pub wrapping_sub : ℕ → ℕ → ℕ
wrapping_sub a b = (a + 2 ^ 64 - b) % 2 ^ 64

-- `buffer.take(start..)` of a slice: what it returns, and what it leaves in the buffer.
unfoldable pub take_from : ℕ → List ℕ → Option (List ℕ × List ℕ)
take_from start buffer =
    if ltb (length buffer) start then none else some (drop start buffer, take start buffer)

-- One call of the iterator of `unpack_messages` and `unpack_messages_ref`.
unfoldable pub next_message : List ℕ → Option (List ℕ × List ℕ)
next_message buffer = do
  (len, rest) ← take_from (wrapping_sub (length buffer) 2) buffer
  take_from (wrapping_sub (length rest) (from_be_bytes len)) rest

-- The messages that the iterator yields, the last one of the buffer first, with fuel for each.
unfoldable pub unpack_loop : ℕ → List ℕ → List (List ℕ)
unpack_loop zero buffer = []
unpack_loop (suc fuel) buffer = elim (next_message buffer) [
  | none ↦ []
  | some (message, rest) ↦ message ∷ unpack_loop fuel rest
]

-- Each message takes two bytes at least.
unfoldable pub unpack_messages : List ℕ → List (List ℕ)
unfolding unpack_loop
unpack_messages buffer = unpack_loop (length buffer) buffer

pub sub_slice : ℕ → ℕ → List ℕ → List ℕ
sub_slice start len mem = take len (drop start mem)

-- `std::ptr::copy` within the buffer.
pub copy : ℕ → ℕ → ℕ → List ℕ → List ℕ
copy src dst len mem = take dst mem ++ (take len (drop src mem) ++ drop (dst + len) mem)

-- The variables of `retain_messages`.
pub record Cursors : Type 0 where
  pub mem : List ℕ
  pub write_cursor : ℕ
  pub cursor : ℕ
  pub hole_end : ℕ

pub move_mem : ℕ → Cursors → Cursors
move_mem len st =
    if st.hole_end == st.cursor
    then st
    else let write_len = st.hole_end - st.cursor - len in
      record st {
        mem =
            if st.hole_end == st.write_cursor
            then st.mem
            else copy (st.hole_end - write_len) (st.write_cursor - write_len) write_len st.mem;
        write_cursor = st.write_cursor - write_len;
      }

-- The body of the loop behind its two tests, on a message of `len` bytes.
visit : (List ℕ → Bool) → ℕ → Cursors → Cursors
visit predicate len st =
    let cursor = st.cursor - (len + 2) in
    let at = record st { cursor = cursor } in
    if predicate (sub_slice cursor len st.mem)
    then at
    else record (move_mem (len + 2) at) { hole_end = cursor }

retain_loop : ℕ → (List ℕ → Bool) → Cursors → Option Cursors
retain_loop zero predicate st = none
retain_loop (suc fuel) predicate st =
    let len = from_be_bytes (sub_slice (st.cursor - 2) 2 st.mem) in
    let rest = retain_loop fuel predicate (visit predicate len st) in
    if ltb st.cursor 2 then some st else if ltb st.cursor (len + 2) then some st else rest

-- The kept region; `none` would be a loop that is still running after a round for each byte.
pub retain_messages : (List ℕ → Bool) → List ℕ → Option (List ℕ)
retain_messages predicate buffer = do
  let end = length buffer
  let st : Cursors = record { mem = buffer; write_cursor = end; cursor = end; hole_end = end }
  done ← retain_loop (suc end) predicate st
  let out = move_mem 0 done
  some (drop out.write_cursor out.mem)
