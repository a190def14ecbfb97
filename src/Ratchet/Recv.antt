-- ===== src/Ratchet/Recv.antt =====
-- crypto/double-ratchet/src/lib.rs: what `send` and `recv` do on the headers that the other end
-- makes when nothing is lost.
use onion_network.Base.{ℕ, ◌-◌, ◌<◌, ◌≡◌, refl, ◌==◌, true, false, le→ltb, arith}
use onion_network.Codec.Sum.{ok}
use onion_network.Ratchet.Chain.{Primitives, next_sc}
use onion_network.Ratchet.Session.{
  MessageHeader, DoubleRatchet, Fresh, Outcome, add_missing_message, keep_missing, recv_current,
  recv, turn, renew_kyber, step_root,
}

module _ (prim : Primitives) where
  -- What taking the next secret of the receiver leaves.
  unfoldable pub taken_secret : DoubleRatchet → Outcome × DoubleRatchet
  taken_secret d = let key = next_sc prim d.receiver in (ok (key.0), record d { receiver = key.1 })

  pub add_missing_message-none :
      (d : DoubleRatchet) (latest : ℕ)
      → latest ≡ (d.receiver).step
      → add_missing_message prim latest d ≡ ok d
  unfolding add_missing_message keep_missing
  add_missing_message-none d latest h =
      rw (h, le→ltb (d.receiver).step (d.receiver).step (omega arith), self (d.receiver).step) refl
    where
      self : (n : ℕ) → n - n ≡ 0
      self n = omega arith

  pub recv_current-next :
      (d : DoubleRatchet) (message : MessageHeader)
      → (message.id).sub_step ≡ (d.receiver).step
      → recv_current prim message d ≡ taken_secret d
  unfolding recv_current taken_secret
  recv_current-next d message h =
      rw (recv_current, add_missing_message-none d (message.id).sub_step h, taken_secret) refl

  pub recv-same :
      (d : DoubleRatchet) (message : MessageHeader) (rng : Fresh)
      → (message.id).step ≡ (d.root).step
      → (message.id).sub_step ≡ (d.receiver).step
      → recv prim message rng d ≡ taken_secret d
  unfolding recv
  recv-same d message rng root sub =
      rw
        (
          le→ltb (message.id).step (d.root).step (omega arith),
          same,
          le→ltb (message.id).sub_step (d.receiver).step (omega arith),
          recv_current-next d message sub,
        )
        refl
    where
      same : ((message.id).step == (d.root).step) ≡ true
      same = ground arith

  pub recv-turn :
      (d renewed : DoubleRatchet) (message : MessageHeader) (rng : Fresh) (input : ℕ)
      → (d.root).step < (message.id).step
      → message.prev_sub_count ≡ (d.receiver).step
      → (message.id).sub_step ≡ 0
      → renew_kyber prim message.kyber
          (prim.dh d.x25519 message.x25519)
          rng
          (record d { x25519 = rng.x25519 })
        ≡ ok (input, renewed)
      → recv prim message rng d ≡ taken_secret (step_root prim message.x25519 input renewed)
  unfolding recv turn step_root
  recv-turn d renewed message rng input ahead counted first renews =
      rw
        (
          le→ltb (message.id).step (d.root).step (omega arith),
          other,
          add_missing_message-none d message.prev_sub_count counted,
          renews,
          recv_current-next (step_root prim message.x25519 input renewed) message (start first),
        )
        refl
    where
      other : ((message.id).step == (d.root).step) ≡ false
      other = ground arith

      start :
          message.id.sub_step ≡ 0
          → (message.id).sub_step ≡ ((step_root prim message.x25519 input renewed).receiver).step
      start e = e
