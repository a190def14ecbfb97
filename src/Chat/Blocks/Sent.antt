-- ===== src/Chat/Blocks/Sent.antt =====
-- What a sent message leaves in the file.
use onion_network.Base.{
  ℕ, ◌+◌, ◌-◌, ◌*◌, ◌%◌, ◌^◌, ◌<◌, ◌≤◌, ◌≡◌, refl, true, List, ◌∷◌, ◌++◌, length, length-append,
  length-drop, take, drop, take-length-append, ltb, le→ltb, lt→ltb, arith,
}
use onion_network.Codec.Sum.{ok}
use onion_network.Chat.Messages.{from_be_bytes, wrapping_sub, unpack_messages}
use onion_network.Chat.Messages.Unpack.{IsLength}
use onion_network.Chat.Messages.Filter.{unpack_messages-append}
use onion_network.Chat.Messages.Slices.{drop-append_le}
use onion_network.Chat.Blocks.{block_size}
use onion_network.Chat.Blocks.Send.{
  block_history, unfinalized_buffer_cap, File, to_be_bytes, append_message, compact, discard_oldest,
  write_message,
}

to_be_bytes-IsLength :
    (m : List ℕ) → length m < 2 ^ 16 → IsLength m (to_be_bytes (length m % 2 ^ 16))
unfolding from_be_bytes
to_be_bytes-IsLength m h = record { two = refl; value = omega arith }

-- The unfinalized messages: the end of the file that the root names.
abbrev pub buffer_of : File → List ℕ
buffer_of f = drop (length f.blocks - (f.root).buffer_len) f.blocks

module _ (encoded : List ℕ) (f : File) where
  abbrev pub record_bytes : List ℕ
  record_bytes = encoded ++ to_be_bytes (length encoded % 2 ^ 16)

  append_message-buffer :
      (f.root).buffer_len ≤ length f.blocks
      → buffer_of (append_message encoded f) ≡ buffer_of f ++ record_bytes
  unfolding append_message
  append_message-buffer inside =
      let start : length (f.blocks ++ record_bytes) - ((f.root).buffer_len + length encoded + 2)
          ≡ length f.blocks - (f.root).buffer_len =
        omega (
          arith,
          length-append f.blocks record_bytes,
          length-append encoded (to_be_bytes (length encoded % 2 ^ 16)),
        ) in
      rw start
        (drop-append_le (length f.blocks - (f.root).buffer_len) f.blocks record_bytes (omega arith))

  compact_small :
      (f.root).checkpoint ≤ length f.blocks
      → length f.blocks < 2 ^ 63
      → length f.blocks ≤ (f.root).checkpoint + block_history * block_size
      → compact (length f.blocks) (append_message encoded f) ≡ ok (append_message encoded f)
  unfolding compact append_message wrapping_sub
  compact_small behind short few =
      let near : (length f.blocks + 2 ^ 64 - (f.root).checkpoint) % 2 ^ 64
          ≤ block_history * block_size =
        omega arith in
      rw (le→ltb (length f.blocks) (f.root).checkpoint behind, le→ltb _ _ near) refl

  -- Where the file has at most eight blocks behind the checkpoint and the buffer stays within its
  -- limit, a message of less than 2 ^ 16 bytes is written: it is the first one that is
  -- unpacked from the new buffer, the old ones follow, and the bytes of the file stay in front.
  pub write_message-unpack_messages :
      (f.root).buffer_len ≤ length f.blocks
      → (f.root).checkpoint ≤ length f.blocks
      → length f.blocks < 2 ^ 62
      → length f.blocks ≤ (f.root).checkpoint + block_history * block_size
      → (f.root).buffer_len + length encoded + 2 ≤ unfinalized_buffer_cap
      → length encoded < 2 ^ 16
      → (f' : File) × (write_message encoded f ≡ (f', ok (f.root).buffer_len))
        × (f'.blocks ≡ f.blocks ++ record_bytes)
        × (unpack_messages (buffer_of f') ≡ encoded ∷ unpack_messages (buffer_of f))
  unfolding write_message append_message discard_oldest
  write_message-unpack_messages inside behind short few room size = (
    append_message encoded f,
    rw
        (
          compact_small behind (omega arith) few,
          le→ltb unfinalized_buffer_cap ((f.root).buffer_len + length encoded + 2) room,
          write_message,
        )
        refl,
    refl,
    rw (append_message-buffer inside) (
        unpack_messages-append (buffer_of f) encoded (to_be_bytes (length encoded % 2 ^ 16))
          (to_be_bytes-IsLength encoded size)
          (omega (
            arith,
            length-append (buffer_of f) record_bytes,
            length-append encoded (to_be_bytes (length encoded % 2 ^ 16)),
            length-drop (length f.blocks - (f.root).buffer_len) f.blocks,
          ))),
  )

  -- Where more than eight blocks stand behind the checkpoint, the compaction after a message is
  -- appended cuts the message off: the file is what it held behind the checkpoint before, while
  -- the root counts the message as a part of the buffer.
  pub compact-loses :
      (f.root).checkpoint ≤ length f.blocks
      → length f.blocks < 2 ^ 63
      → (f.root).checkpoint + block_history * block_size < length f.blocks
      → (f' : File) × (compact (length f.blocks) (append_message encoded f) ≡ ok f')
        × (f'.blocks ≡ drop (f.root).checkpoint f.blocks)
        × ((f'.root).buffer_len ≡ (f.root).buffer_len + length encoded + 2)
  unfolding compact append_message wrapping_sub
  compact-loses behind short many =
      let copied : (length f.blocks + 2 ^ 64 - (f.root).checkpoint) % 2 ^ 64
          ≡ length f.blocks - (f.root).checkpoint =
        omega arith in
      let far : ltb (block_history * block_size) (length f.blocks - (f.root).checkpoint) ≡ true =
        lt→ltb _ _ (omega arith) in
      let size : length (drop (f.root).checkpoint f.blocks)
          ≡ length f.blocks - (f.root).checkpoint =
        length-drop (f.root).checkpoint f.blocks in
      (
        record {
          root = record (f.root) {
            buffer_len = (f.root).buffer_len + length encoded + 2;
            checkpoint =
                wrapping_sub (length f.blocks - (f.root).checkpoint)
                  ((f.root).buffer_len + length encoded + 2);
          };
          blocks =
              take (length f.blocks - (f.root).checkpoint)
                (drop (f.root).checkpoint (f.blocks ++ record_bytes));
          discarded_bytes = f.discarded_bytes + (length f.blocks - (f.root).checkpoint);
        },
        rw (le→ltb (length f.blocks) (f.root).checkpoint behind, copied, far) refl,
        rw (drop-append_le (f.root).checkpoint f.blocks record_bytes behind, ← size)
            (take-length-append (drop (f.root).checkpoint f.blocks) record_bytes),
        refl,
      )
