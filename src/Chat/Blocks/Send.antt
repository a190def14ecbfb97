-- ===== src/Chat/Blocks/Send.antt =====
-- chat/server/src/storage/chat.rs: the part of `send_message` that writes the message, behind the
-- charge of its sender. `to_be_bytes` has the high byte first.
use onion_network.Base.{
  ℕ, ◌+◌, ◌-◌, ◌*◌, ◌/◌, ◌%◌, ◌^◌, Option, none, some, Bool, ◌&&◌, not, List, [], ◌∷◌, ◌++◌, length,
  take, drop, ltb, leb, ◌==◌, if◌then◌else◌,
}
use onion_network.Codec.Sum.{Result, ok, err}
use onion_network.Chat.Errors.{ChatError, io}
use onion_network.Chat.Blocks.Proposals.{select_finalizer}
use onion_network.Chat.Messages.{wrapping_sub, unpack_messages}
use onion_network.Chat.Blocks.{block_size, Root, local, BlockProposal, Handle, insert, read_buffer}

abbrev pub block_history : ℕ
block_history = 8

-- `BLOCK_SIZE * MAX_UNFINALIZED_BLOCKS`
abbrev pub unfinalized_buffer_cap : ℕ
unfinalized_buffer_cap = block_size * 5

-- The root, the bytes of the blocks file and the count of the bytes that were cut off.
pub record File : Type 0 where
  pub root : Root
  pub blocks : List ℕ
  pub discarded_bytes : ℕ

abbrev pub to_be_bytes : ℕ → List ℕ
to_be_bytes len = len / 256 % 256 ∷ len % 256 ∷ []

unfoldable pub append_message : List ℕ → File → File
append_message encoded f = record f {
  root = record (f.root) { buffer_len = (f.root).buffer_len + length encoded + 2 };
  blocks = f.blocks ++ (encoded ++ to_be_bytes (length encoded % 2 ^ 16));
}

-- The copy of the bytes behind the checkpoint to the front. `file_len` is the length of the file
-- before the message was appended. A checkpoint behind that is read past the end: `UnexpectedEof`.
unfoldable pub compact : ℕ → File → Result File ChatError
compact file_len f =
    let copied = wrapping_sub file_len (f.root).checkpoint in
    if ltb file_len (f.root).checkpoint
    then err (io 17)
    else if ltb (block_history * block_size) copied
    then ok (record {
      root = record (f.root) { checkpoint = wrapping_sub copied (f.root).buffer_len };
      blocks = take copied (drop (f.root).checkpoint f.blocks);
      discarded_bytes = f.discarded_bytes + copied;
    })
    else ok f

-- The bytes of the newest messages to keep: the rest of the buffer fits in a block.
unfoldable pub kept_chunk_len : ℕ → ℕ → List (List ℕ) → ℕ
kept_chunk_len buffer_len kept [] = kept
kept_chunk_len buffer_len kept (m ∷ ms) =
    let next = kept + (length m + 2) in
    let rest = kept_chunk_len buffer_len next ms in
    if leb (buffer_len - next) block_size then next else rest

unfoldable pub discard_oldest : File → Result File ChatError
unfolding kept_chunk_len read_buffer
discard_oldest f =
    if ltb unfinalized_buffer_cap (f.root).buffer_len
    then elim (read_buffer f.root f.blocks) [
      | err e ↦ err e
      | ok parts ↦
          let kept = kept_chunk_len (f.root).buffer_len 0 (unpack_messages parts.1) in
          ok (record f {
            root = record (f.root) { buffer_len = kept };
            blocks = parts.0 ++ drop (length parts.1 - kept) parts.1;
          })
    ]
    else ok f

abbrev pub should_finalize : ℕ → ℕ → Bool
should_finalize prev len =
    ltb block_size len
    && (ltb (block_size / 2) (len % block_size) && ltb (prev % block_size) (block_size / 2))

-- The bytes of the block that is proposed: whole messages, at most `desired` bytes unless the
-- buffer has no other message.
unfoldable pub cut_block : ℕ → ℕ → List (List ℕ) → ℕ
cut_block desired size [] = size
cut_block desired size (m ∷ ms) =
    let next = size - (length m + 2) in
    let rest = cut_block desired next ms in if leb next desired then next else rest

-- The file that a sent message leaves, and the length of the buffer before it. The root is stored
-- at the end, so an error leaves the old one beside the bytes that are written.
unfoldable pub write_message : List ℕ → File → File × Result ℕ ChatError
unfolding append_message compact discard_oldest
write_message encoded f =
    let appended = append_message encoded f in
    elim (compact (length f.blocks) appended) [
      | err e ↦ (record appended { root = f.root }, err e)
      | ok compacted ↦ elim (discard_oldest compacted) [
        | err e ↦ (record compacted { root = f.root }, err e)
        | ok done ↦ (done, ok (f.root).buffer_len)
      ]
    ]

module _ (hash : List ℕ → ℕ) (xor : ℕ → ℕ → ℕ) where
  -- The block that the chosen peer proposes, with its own vote; `none` inside where it is not
  -- the time or the turn of this peer.
  unfoldable pub propose_block :
      ℕ → List ℕ → ℕ → Handle → Option (Handle × Result (Option (ℕ × List ℕ)) ChatError)
  unfolding cut_block read_buffer
  propose_block local_peer members prev h =
      let root = h.root in
      if not (should_finalize prev root.buffer_len)
      then some (h, ok none)
      else elim (select_finalizer hash xor root.latest_block members root.buffer_len) [
        | none ↦ none
        | some selected ↦
            if not (selected == local_peer)
            then some (h, ok none)
            else elim (read_buffer root h.blocks) [
              | err e ↦ some (h, err e)
              | ok parts ↦
                  let desired = root.buffer_len / block_size * block_size in
                  let block =
                    take (cut_block desired root.buffer_len (unpack_messages parts.1)) parts.1 in
                  let mine : BlockProposal = record {
                    number = root.number;
                    yes = 1;
                    no = 0;
                    proposal = local (length block);
                    votes = [];
                  } in
                  some (
                    record h { voting = insert (hash block) mine h.voting },
                    ok (some (root.number, block)),
                  )
            ]
      ]
