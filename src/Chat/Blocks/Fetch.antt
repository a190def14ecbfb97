-- ===== src/Chat/Blocks/Fetch.antt =====
-- chat/server/src/storage/chat.rs: `fetch_messages`. A cursor is a place in all bytes that were ever
-- written; those that were cut off stand in front of the file.
use onion_network.Base.{
  ℕ, ◌+◌, ◌-◌, ◌*◌, ◌^◌, List, [], ◌∷◌, ◌++◌, length, take, drop, replicate, ltb, ◌==◌,
  if◌then◌else◌,
}
use onion_network.Codec.Sum.{Result, ok, err}
use onion_network.Chat.Errors.{ChatError, io}
use onion_network.Chat.Messages.{wrapping_sub, unpack_messages}
use onion_network.Chat.Blocks.Send.{File}

-- `MAX_MESSAGE_FETCH_SIZE`
abbrev pub max_message_fetch_size : ℕ
max_message_fetch_size = 1024 * 8

-- `Cursor::MAX`
abbrev pub cursor_max : ℕ
cursor_max = 2 ^ 64 - 1

abbrev pub taken : List (List ℕ) → ℕ
taken [] = 0
taken (m ∷ ms) = length m + 2 + taken ms

-- The bytes that were read stand at the end of the buffer, behind zeros. A read past the end of
-- the file is `UnexpectedEof`.
unfoldable pub fetch_messages : ℕ → File → Result (List ℕ × ℕ) ChatError
fetch_messages cursor f =
    let at = if cursor == cursor_max then length f.blocks + f.discarded_bytes else cursor in
    let offset = wrapping_sub at f.discarded_bytes in
    let final_offset = offset - max_message_fetch_size in
    let red = offset - final_offset in
    let bytes = take red (drop final_offset f.blocks) in
    let next = at - taken (unpack_messages bytes) in
    if ltb (length f.blocks) offset
    then err (io 17)
    else ok
        (replicate (max_message_fetch_size - red) 0 ++ bytes, if red == 0 then cursor_max else next)
