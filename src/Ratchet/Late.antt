-- ===== src/Ratchet/Late.antt =====
-- crypto/double-ratchet/src/lib.rs: the secrets of messages that are late.
use onion_network.Base.{
  ℕ, suc, ◌+◌, ◌<◌, ◌≤◌, ◌≡◌, refl, ap, ◌∙◌, true, List, [], ◌∷◌, Bool-cases, inl, inr, false, All,
  sym, if◌then◌else◌, ◌==◌, ==_iff, arith,
}
use onion_network.Codec.Sum.{ok, err}
use onion_network.Ratchet.Chain.{Primitives, u32_max}
use onion_network.Ratchet.Session.{
  MessageHeader, DoubleRatchet, Fresh, missing_message, recv, header, Outcome,
  max_kept_missing_messages,
}
use onion_network.Ratchet.Kept.{
  after_keys, key_of, left_over, left_over-skipped, came_already, step-after_keys,
  take_missing-came, take_missing-left_over,
}
use onion_network.Ratchet.Gap.{
  nth_message, nth_message-key_of, gone_ahead, recv-gap, find-kept, find-none, recv-behind,
}

module _ (prim : Primitives) where
  -- A receiver that is past the next `k` messages and some more, of which these came.
  abbrev past : ℕ → List ℕ → DoubleRatchet → DoubleRatchet
  past k came d = record d {
    receiver = after_keys prim (suc k) d.receiver;
    missing_messages = left_over prim (d.root).step k (d.receiver).step d.receiver came;
  }

  recv-past_again :
      (k : ℕ) (came : List ℕ) (d : DoubleRatchet) (message : MessageHeader) (rng : Fresh)
      → (message.id).step ≡ (d.root).step
      → (message.id).sub_step < (after_keys prim (suc k) d.receiver).step
      → came_already (message.id).sub_step came ≡ true
      → recv prim message rng (past k came d) ≡ (err missing_message, past k came d)
  recv-past_again k came d message rng root passed again =
      recv-behind prim message (past k came d) rng root passed
      ∙ find-none prim message (past k came d) (
          take_missing-came prim (d.root).step k (d.receiver).step d.receiver message.id came root
            again)

  recv-past_first :
      (k j : ℕ) (came : List ℕ) (d : DoubleRatchet) (message : MessageHeader) (rng : Fresh)
      → (message.id).step ≡ (d.root).step
      → (message.id).sub_step < (after_keys prim (suc k) d.receiver).step
      → (message.id).sub_step ≡ (d.receiver).step + j
      → j < k
      → came_already (message.id).sub_step came ≡ false
      → recv prim message rng (past k came d)
        ≡ (ok (key_of prim j d.receiver), past k ((message.id).sub_step ∷ came) d)
  recv-past_first k j came d message rng root passed sub before new =
      recv-behind prim message (past k came d) rng root passed
      ∙ find-kept prim message (past k came d) (key_of prim j d.receiver) _ (
          take_missing-left_over prim (d.root).step k (d.receiver).step j d.receiver message.id came
            root sub before new)

  -- What a receiver answers to late messages, each by its place after the first one; and what it is
  -- to answer: the secret of its sender the first time, and that it is missing from then on.
  abbrev pub late_outcomes : DoubleRatchet → DoubleRatchet → List (ℕ × Fresh) → List Outcome
  late_outcomes l d [] = []
  late_outcomes l d ((j, rng) ∷ late) =
      let r = recv prim ((nth_message prim j l).0) rng d in r.0 ∷ late_outcomes l (r.1) late

  abbrev pub each_once : DoubleRatchet → List ℕ → List (ℕ × Fresh) → List Outcome
  each_once l came [] = []
  each_once l came ((j, rng) ∷ late) =
      (if came_already j came then err missing_message else ok ((nth_message prim j l).1))
      ∷ each_once l (j ∷ came) late

  -- The places that came, by the receiver's count and by the sender's.
  abbrev IsSameCame : ℕ → List ℕ → List ℕ → Type 0
  IsSameCame start came places = (i : ℕ) → came_already (start + i) came ≡ came_already i places

  shift_same : (start j i : ℕ) → (start + j == start + i) ≡ (j == i)
  shift_same start j i = elim (Bool-cases (j == i)) [
    | inl e ↦ rw e (ground (arith, e))
    | inr e ↦ rw e (ground (arith, e))
  ]

  came-more :
      (start j : ℕ) (came places : List ℕ)
      → IsSameCame start came places
      → IsSameCame start ((start + j) ∷ came) (j ∷ places)
  came-more start j came places same i = rw (shift_same start j i, same i) refl

  came-again :
      (start j : ℕ) (came places : List ℕ)
      → IsSameCame start came places
      → came_already j places ≡ true
      → IsSameCame start came (j ∷ places)
  came-again start j came places same there i = elim (Bool-cases (j == i)) [
    | inl e ↦ rw (e, same i) (sym (ap (λ n. came_already n places) ((==_iff j i).0 e)) ∙ there)
    | inr e ↦ rw e (same i)
  ]

  module _ (l d : DoubleRatchet) (k : ℕ) (root : l.root ≡ d.root) (chain : l.sender ≡ d.receiver)
      (room : (l.sender).step + k < u32_max) where
    at_receiver : (d.receiver).step + k < u32_max
    at_receiver = let same = ap (λ c. c.step) chain in omega (arith, room, same)

    -- The message at a place, by what the receiver knows.
    nth-header :
        (j : ℕ)
        → j ≤ k
        → ((nth_message prim j l).0)
          ≡ header prim (record l { sender = after_keys prim j d.receiver })
    nth-header j within =
        ap (λ x. x.0) (nth_message-key_of prim j l (omega (arith, room, within)))
        ∙ ap (λ c. header prim (record l { sender = after_keys prim j c })) chain

    nth-step : (j : ℕ) → j ≤ k → (((nth_message prim j l).0).id).step ≡ (d.root).step
    unfolding header
    nth-step j within = ap (λ m. (m.id).step) (nth-header j within) ∙ ap (λ c. c.step) root

    nth-sub_step :
        (j : ℕ) → j ≤ k → (((nth_message prim j l).0).id).sub_step ≡ (d.receiver).step + j
    unfolding header
    nth-sub_step j within =
        ap (λ m. (m.id).sub_step) (nth-header j within)
        ∙ step-after_keys prim j d.receiver (omega (arith, at_receiver, within))

    nth-secret : (j : ℕ) → j ≤ k → (nth_message prim j l).1 ≡ key_of prim j d.receiver
    nth-secret j within =
        ap (λ x. x.1) (nth_message-key_of prim j l (omega (arith, room, within)))
        ∙ ap (key_of prim j) chain

    nth-passed :
        (j : ℕ)
        → j < k
        → (((nth_message prim j l).0).id).sub_step < (after_keys prim (suc k) d.receiver).step
    nth-passed j before = omega (
      arith,
      step-after_keys prim (suc k) d.receiver (omega (arith, at_receiver)),
      nth-sub_step j (omega (arith, before)),
      before,
    )

    late_outcomes-each_once :
        (late : List (ℕ × Fresh)) (came places : List ℕ)
        → All (λ x. x.0 < k) late
        → IsSameCame (d.receiver).step came places
        → late_outcomes l (past k came d) late ≡ each_once l places late
    late_outcomes-each_once [] came places before same = refl
    late_outcomes-each_once ((j, rng) ∷ late) came places (first, before) same =
        let within : j ≤ k = omega (arith, first) in
        let message = (nth_message prim j l).0 in
        let at : came_already (message.id).sub_step came ≡ came_already j places =
          ap (λ n. came_already n came) (nth-sub_step j within) ∙ same j in
        elim (Bool-cases (came_already j places)) [
          | inl there ↦
              rw
                (
                  recv-past_again k came d message rng (nth-step j within) (nth-passed j first)
                      (at ∙ there),
                  there,
                )
                (ap (λ r. err missing_message ∷ r)
                  (late_outcomes-each_once late came (j ∷ places) before
                    (came-again (d.receiver).step j came places same there)))
          | inr new ↦
              rw
                (
                  recv-past_first k j came d message rng (nth-step j within) (nth-passed j first)
                      (nth-sub_step j within) first (at ∙ new),
                  new,
                  nth-secret j within,
                  nth-sub_step j within,
                )
                (ap (λ r. ok (key_of prim j d.receiver) ∷ r)
                  (late_outcomes-each_once late (((d.receiver).step + j) ∷ came) (j ∷ places) before
                    (came-more (d.receiver).step j came places same)))
        ]

    gone_ahead-past : gone_ahead prim k d ≡ past k [] d
    gone_ahead-past =
        ap (λ m. record d { receiver = after_keys prim (suc k) d.receiver; missing_messages = m })
          (sym (left_over-skipped prim (d.root).step k (d.receiver).step d.receiver))

  -- A receiver that has no late messages and is at the same place of a chain as the sender gets the
  -- secret of the message that the sender sends after `k` others, for `k` up to five. Those others
  -- may then come in any order, any of them more than once: each is received with its own secret
  -- the first time, and is refused as missing from then on.
  pub recv-late :
      (l d : DoubleRatchet) (k : ℕ) (rng : Fresh) (late : List (ℕ × Fresh))
      → d.missing_messages ≡ []
      → l.root ≡ d.root
      → l.sender ≡ d.receiver
      → k ≤ max_kept_missing_messages
      → All (λ x. x.0 < k) late
      → (l.sender).step + k < u32_max
      → let first = recv prim ((nth_message prim k l).0) rng d in
        (first.0 ≡ ok ((nth_message prim k l).1))
        × (late_outcomes l (first.1) late ≡ each_once l [] late)
  recv-late l d k rng late empty root chain few before room = (
    ap (λ r. r.0) ahead ∙ ap ok (sym (nth-secret l d k root chain room k (omega arith))),
    ap (λ r. late_outcomes l (r.1) late) ahead
        ∙ ap (λ x. late_outcomes l x late) (gone_ahead-past l d k root chain room)
        ∙ late_outcomes-each_once l d k root chain room late [] [] before (λ i. refl),
  )
    where
      ahead :
          recv prim ((nth_message prim k l).0) rng d
          ≡ (ok (key_of prim k d.receiver), gone_ahead prim k d)
      ahead =
          recv-gap prim k d ((nth_message prim k l).0) rng empty
            (nth-step l d k root chain room k (omega arith))
            (nth-sub_step l d k root chain room k (omega arith)) few
