-- ===== src/Ratchet/Gap.antt =====
-- crypto/double-ratchet/src/lib.rs: the messages of a sender, and a message that is ahead of the
-- receiver or behind it.
use onion_network.Base.{
  ℕ, zero, suc, ◌+◌, ◌-◌, ◌<◌, ◌≤◌, ◌≡◌, refl, ap, ◌∙◌, none, some, true, List, [], length, ◌==◌,
  lt→ltb, le→ltb, arith,
}
use onion_network.Codec.Sum.{ok, err}
use onion_network.Ratchet.Chain.{Primitives, u32_max}
use onion_network.Ratchet.Session.{
  MessageId, MessageHeader, DoubleRatchet, Fresh, missing_message, recv, send, header,
  add_missing_message, recv_current, take_missing, find_missing_message, max_kept_missing_messages,
}
use onion_network.Ratchet.Conversation.{sent, send-chain}
use onion_network.Ratchet.Kept.{
  after_keys, key_of, skipped, step-after_keys, next-after_keys, keep_missing-skipped,
}

module _ (prim : Primitives) where
  -- The state of a sender once it has sent so many messages.
  unfoldable pub sends : ℕ → DoubleRatchet → DoubleRatchet
  sends zero d = d
  sends (suc n) d = sends n ((send prim d).1)

  pub sends-after_keys :
      (n : ℕ) (d : DoubleRatchet)
      → (d.sender).step + n < u32_max
      → sends n d ≡ record d { sender = after_keys prim n d.sender }
  unfolding sends
  sends-after_keys zero d h = refl
  sends-after_keys (suc n) d h =
      rw (send-chain prim d (omega (arith, h)), sends-after_keys n (sent prim d) (omega (arith, h)))
        refl

  -- The message that a sender sends after so many others.
  abbrev pub nth_message : ℕ → DoubleRatchet → MessageHeader × ℕ
  nth_message n d = (send prim (sends n d)).0

  pub nth_message-key_of :
      (n : ℕ) (d : DoubleRatchet)
      → (d.sender).step + n < u32_max
      → nth_message n d
        ≡ (header prim (record d { sender = after_keys prim n d.sender }), key_of prim n d.sender)
  nth_message-key_of n d h =
      ap (λ x. (send prim x).0) (sends-after_keys n d h)
      ∙ ap (λ x. x.0)
          (send-chain prim (record d { sender = after_keys prim n d.sender })
            (omega (arith, step-after_keys prim n d.sender (omega (arith, h)), h)))

  -- What is left by a message so far ahead of the receiver.
  abbrev pub gone_ahead : ℕ → DoubleRatchet → DoubleRatchet
  gone_ahead k d = record d {
    receiver = after_keys prim (suc k) d.receiver;
    missing_messages = skipped prim (d.root).step k (d.receiver).step d.receiver;
  }

  add_missing_message-gap :
      (k latest : ℕ) (d : DoubleRatchet)
      → d.missing_messages ≡ []
      → latest ≡ (d.receiver).step + k
      → k ≤ max_kept_missing_messages
      → add_missing_message prim latest d
        ≡ ok (record d {
          receiver = after_keys prim k d.receiver;
          missing_messages = skipped prim (d.root).step k (d.receiver).step d.receiver;
        })
  unfolding add_missing_message
  add_missing_message-gap k latest d empty sub few =
      rw
        (
          le→ltb latest (d.receiver).step (omega (arith, sub)),
          rounds,
          keep_missing-skipped prim k (d.receiver).step d room,
          empty,
        )
        refl
    where
      rounds : latest - (d.receiver).step ≡ k
      rounds = omega (arith, sub)

      room : length d.missing_messages + k ≤ max_kept_missing_messages
      room = rw empty (omega (arith, few))

  recv_current-gap :
      (k : ℕ) (d : DoubleRatchet) (message : MessageHeader)
      → d.missing_messages ≡ []
      → (message.id).sub_step ≡ (d.receiver).step + k
      → k ≤ max_kept_missing_messages
      → recv_current prim message d ≡ (ok (key_of prim k d.receiver), gone_ahead k d)
  unfolding recv_current
  recv_current-gap k d message empty sub few =
      rw
        (
          recv_current,
          add_missing_message-gap k (message.id).sub_step d empty sub few,
          next-after_keys prim k d.receiver,
        )
        refl

  pub recv-gap :
      (k : ℕ) (d : DoubleRatchet) (message : MessageHeader) (rng : Fresh)
      → d.missing_messages ≡ []
      → (message.id).step ≡ (d.root).step
      → (message.id).sub_step ≡ (d.receiver).step + k
      → k ≤ max_kept_missing_messages
      → recv prim message rng d ≡ (ok (key_of prim k d.receiver), gone_ahead k d)
  unfolding recv
  recv-gap k d message rng empty root sub few =
      rw
        (
          le→ltb (message.id).step (d.root).step (omega (arith, root)),
          same,
          le→ltb (message.id).sub_step (d.receiver).step (omega (arith, sub)),
          recv_current-gap k d message empty sub few,
        )
        refl
    where
      same : ((message.id).step == (d.root).step) ≡ true
      same = ground (arith, root)

  pub find-kept :
      (message : MessageHeader) (d : DoubleRatchet) (s : ℕ) (rest : List (MessageId × ℕ))
      → take_missing message.id d.missing_messages ≡ some (s, rest)
      → find_missing_message prim message d ≡ (ok s, record d { missing_messages = rest })
  unfolding find_missing_message
  find-kept message d s rest h = rw (find_missing_message, h) refl

  pub find-none :
      (message : MessageHeader) (d : DoubleRatchet)
      → take_missing message.id d.missing_messages ≡ none
      → find_missing_message prim message d ≡ (err missing_message, d)
  unfolding find_missing_message
  find-none message d h = rw (find_missing_message, h) refl

  pub recv-behind :
      (message : MessageHeader) (d : DoubleRatchet) (rng : Fresh)
      → (message.id).step ≡ (d.root).step
      → (message.id).sub_step < (d.receiver).step
      → recv prim message rng d ≡ find_missing_message prim message d
  unfolding recv
  recv-behind message d rng root sub =
      rw
        (
          le→ltb (message.id).step (d.root).step (omega (arith, root)),
          same,
          lt→ltb (message.id).sub_step (d.receiver).step sub,
        )
        refl
    where
      same : ((message.id).step == (d.root).step) ≡ true
      same = ground (arith, root)
