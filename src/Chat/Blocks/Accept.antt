-- ===== src/Chat/Blocks/Accept.antt =====
-- What accepting a block leaves in the file and in the votes.
use onion_network.Base.{
  ℕ, zero, suc, ◌+◌, ◌-◌, ◌%◌, ◌^◌, ◌<◌, ◌≤◌, ◌≡◌, refl, sym, Bool, not, List, [], ◌∷◌, ◌++◌,
  length, length-drop, take, drop, filter, All, leb, le→ltb, leb→le, Bool-cases, inl, inr, arith,
}
use onion_network.Codec.Sum.{ok, err}
use onion_network.Chat.Messages.{wrapping_sub, unpack_messages}
use onion_network.Chat.Messages.Filter.{retain_messages-unpack_messages}
use onion_network.Chat.Blocks.{
  Root, BlockProposal, Handle, contains_message, read_buffer, retain_messages_in_vec, accept_local,
  accept_remote, accept_block,
}

retain_in_vec_lem :
    (p : List ℕ → Bool) (buffer : List ℕ)
    → length buffer < 2 ^ 63
    → (length (retain_messages_in_vec p buffer) ≤ length buffer)
      × (unpack_messages (retain_messages_in_vec p buffer) ≡ filter p (unpack_messages buffer))
unfolding retain_messages_in_vec
retain_in_vec_lem p buffer h =
    let (kept, e, small, same) = retain_messages-unpack_messages p buffer h in
    rw (e, retain_messages_in_vec) (small, same)

read_buffer_ok :
    (root : Root) (blocks : List ℕ)
    → root.buffer_len ≤ length blocks
    → read_buffer root blocks
      ≡ ok (
        take (length blocks - root.buffer_len) blocks,
        drop (length blocks - root.buffer_len) blocks,
      )
unfolding read_buffer
read_buffer_ok root blocks h = rw (le→ltb _ _ h) refl

accept_remote_lem :
    (bytes : List ℕ) (root : Root) (h : Handle)
    → root.buffer_len ≤ length h.blocks
    → (let start = length h.blocks - root.buffer_len in
        let kept =
          retain_messages_in_vec
            (λ m. not (contains_message (unpack_messages bytes) m))
            (drop start h.blocks) in
        accept_remote bytes root h ≡ (
          record h {
            root = record root { buffer_len = length kept };
            blocks = take start h.blocks ++ (bytes ++ kept);
          },
          ok tt,
        ))
unfolding accept_remote
accept_remote_lem bytes root h inside = rw (read_buffer_ok root h.blocks inside, accept_remote)

abbrev leb_number : ℕ → ℕ × BlockProposal → Bool
leb_number number e = leb number (e.1).number

votes_kept :
    (number : ℕ) (m : List (ℕ × BlockProposal))
    → All (λ e. number ≤ (e.1).number) (filter (leb_number number) m)
votes_kept number [] = tt
votes_kept number (e ∷ m) = elim (Bool-cases (leb number (e.1).number)) [
  | inl new ↦ rw new (leb→le _ _ new, votes_kept number m)
  | inr old ↦ rw old (votes_kept number m)
]

module _ (hash number : ℕ) (bytes : List ℕ) (h : Handle) where
  abbrev buffer : List ℕ
  buffer = drop (length h.blocks - (h.root).buffer_len) h.blocks

  -- Where the buffer of unfinalized messages lies within the file and is shorter than 2 ^ 63 bytes,
  -- accepting a remote block succeeds. The file then is what stood in front of the buffer, the block
  -- and the new buffer. The messages of the new buffer are those of the old one that the
  -- block does not have, in order, the root tells its length, the number and the hash of the block,
  -- and only proposals whose number is not smaller stay in the vote.
  pub accept_block-remote :
      (h.root).buffer_len ≤ length h.blocks
      → (h.root).buffer_len < 2 ^ 63
      → (kept : List ℕ) × (h' : Handle) × (accept_block hash number (err bytes) h ≡ (h', ok tt))
        × (h'.blocks ≡ take (length h.blocks - (h.root).buffer_len) h.blocks ++ (bytes ++ kept))
        × (unpack_messages kept
            ≡ filter
                (λ m. not (contains_message (unpack_messages bytes) m))
                (unpack_messages buffer))
        × (h'.root
            ≡ record (h.root) { buffer_len = length kept; number = number; latest_block = hash })
        × All (λ e. number ≤ (e.1).number) h'.voting
  unfolding accept_block
  accept_block-remote inside small =
      let new =
        retain_messages_in_vec (λ m. not (contains_message (unpack_messages bytes) m)) buffer in
      let (shorter, same) =
        retain_in_vec_lem (λ m. not (contains_message (unpack_messages bytes) m)) buffer
          (omega (arith, length-drop (length h.blocks - (h.root).buffer_len) h.blocks)) in
      (new, _, accept_remote_lem bytes _ _ inside, refl, same, refl, votes_kept number h.voting)

drop-drop : (m n : ℕ) (xs : List ℕ) → drop m (drop n xs) ≡ drop (n + m) xs
drop-drop m zero xs = let e : 0 + m ≡ m = omega arith in rw e refl
drop-drop zero (suc n) [] = let e : suc n + 0 ≡ suc n = omega arith in rw e refl
drop-drop (suc m) (suc n) [] = let e : suc n + suc m ≡ suc (n + suc m) = omega arith in rw e refl
drop-drop m (suc n) (x ∷ xs) =
    let e : suc n + m ≡ suc (n + m) = omega arith in rw e (drop-drop m n xs)

-- Accepting a local block of a size that the buffer has succeeds and leaves the file as it is; the
-- bytes of the block have left the buffer, which is now what stands behind them.
pub accept_block-local :
    (hash number size : ℕ) (h : Handle)
    → (h.root).buffer_len ≤ length h.blocks
    → (h.root).buffer_len < 2 ^ 63
    → size ≤ (h.root).buffer_len
    → (h' : Handle) × (accept_block hash number (ok size) h ≡ (h', ok tt))
      × (h'.blocks ≡ h.blocks)
      × (drop (length h'.blocks - (h'.root).buffer_len) h'.blocks
          ≡ drop size (drop (length h.blocks - (h.root).buffer_len) h.blocks))
      × ((h'.root).number ≡ number)
      × ((h'.root).latest_block ≡ hash)
      × All (λ e. number ≤ (e.1).number) h'.voting
unfolding accept_block accept_local wrapping_sub
accept_block-local hash number size h inside small fits =
    let left : ((h.root).buffer_len + 2 ^ 64 - size) % 2 ^ 64 ≡ (h.root).buffer_len - size =
      omega arith in
    let start : length h.blocks - ((h.root).buffer_len - size)
        ≡ length h.blocks - (h.root).buffer_len + size =
      omega arith in
    (
      _,
      refl,
      refl,
      rw (left, start) (sym (drop-drop size (length h.blocks - (h.root).buffer_len) h.blocks)),
      refl,
      refl,
      votes_kept number h.voting,
    )
