-- ===== src/Ratchet/Bounds.antt =====
-- crypto/double-ratchet/src/lib.rs: the room for late messages, and the state that errors leave.
use onion_network.Base.{
  ℕ, zero, suc, ◌+◌, ◌-◌, ◌<◌, ◌≤◌, ◌≡◌, Option, none, some, false, List, [], ◌∷◌, ◌++◌, length,
  length-append, ltb, leb, ◌==◌, drop, length-drop, Bool-cases, inl, inr, arith,
}
use onion_network.Codec.Sum.{Result, ok, err}
use onion_network.Ratchet.Chain.{Primitives, next_sc, xor, u32_max}
use onion_network.Ratchet.Session.{
  sender, recipient, InitiatiorKey, MessageId, MessageHeader, Kyber, DoubleRatchet, Fresh,
  RecvError, Outcome, missing_message, decapsulation, recv, send, turn, renew_kyber, step_root,
  begin_chain, keep_one, keep_missing, add_missing_message, recv_current, take_missing,
  find_missing_message, same_id, max_kept_missing_messages,
}

-- A call that changes the state.
pub data Call : Type 0 where
  sends : Call
  receives : MessageHeader → Fresh → Call

-- As many late messages are kept as there is room for.
abbrev pub IsWithin : DoubleRatchet → Type 0
IsWithin d = length d.missing_messages ≤ max_kept_missing_messages

abbrev Fits : ℕ → Option (ℕ × List (MessageId × ℕ)) → Type 0
Fits n none = Unit {0}
Fits n (some (s, rest)) = length rest ≤ n

abbrev put_back :
    MessageId × ℕ → Option (ℕ × List (MessageId × ℕ)) → Option (ℕ × List (MessageId × ℕ))
put_back x found = elim found [ none ↦ none | some (s, others) ↦ some (s, x ∷ others) ]

put_back-Fits :
    (x : MessageId × ℕ) (n : ℕ) (found : Option (ℕ × List (MessageId × ℕ)))
    → Fits n found
    → Fits (suc n) (put_back x found)
put_back-Fits x n none h = tt
put_back-Fits x n (some (s, others)) h = omega (arith, h)

take_missing-Fits :
    (id : MessageId) (xs : List (MessageId × ℕ)) → Fits (length xs) (take_missing id xs)
take_missing-Fits id [] = tt
take_missing-Fits id (x ∷ xs) = elim (Bool-cases (same_id (x.0) id)) [
  | inl same ↦ rw same (omega arith)
  | inr other ↦
      rw other (put_back-Fits x (length xs) (take_missing id xs) (take_missing-Fits id xs))
]

module _ (prim : Primitives) where
  keep_one-IsWithin : (sub : ℕ) (d : DoubleRatchet) → IsWithin d → IsWithin (keep_one prim sub d)
  unfolding keep_one
  keep_one-IsWithin sub d h =
      elim (Bool-cases (leb max_kept_missing_messages (length d.missing_messages))) [
        | inl full ↦
            rw full (
              omega (arith, h, added (drop 1 d.missing_messages), length-drop 1 d.missing_messages))
        | inr room ↦ rw room (omega (arith, h, added d.missing_messages, below room))
      ]
    where
      added :
          (xs : List (MessageId × ℕ))
          → length (
              xs
              ++ ((record { step = (d.root).step; sub_step = sub }, (next_sc prim d.receiver).0)
                  ∷ []))
            ≡ length xs + 1
      added xs = length-append xs _

      below :
          leb max_kept_missing_messages (length d.missing_messages) ≡ false
          → length d.missing_messages < max_kept_missing_messages
      below room = ground arith

  keep_missing-IsWithin :
      (n sub : ℕ) (d : DoubleRatchet) → IsWithin d → IsWithin (keep_missing prim n sub d)
  unfolding keep_missing
  keep_missing-IsWithin zero sub d h = h
  keep_missing-IsWithin (suc n) sub d h =
      keep_missing-IsWithin n (sub + 1) (keep_one prim sub d) (keep_one-IsWithin sub d h)

  -- What holds of the state that is left, whether there was an error or not.
  abbrev Either : {A B : Type 0} → (P : A → Type 0) (Q : B → Type 0) → Result A B → Type 0
  Either P Q (ok a) = P a
  Either P Q (err b) = Q b

  add_missing_message-Either :
      (latest : ℕ) (d : DoubleRatchet)
      → IsWithin d
      → Either IsWithin (λ e. Unit {0}) (add_missing_message prim latest d)
  unfolding add_missing_message
  add_missing_message-Either latest d h = elim (Bool-cases (ltb latest (d.receiver).step)) [
    | inl behind ↦ rw behind tt
    | inr not_behind ↦
        rw not_behind (keep_missing-IsWithin (latest - (d.receiver).step) (d.receiver).step d h)
  ]

  find_missing_message-IsWithin :
      (message : MessageHeader) (d : DoubleRatchet)
      → IsWithin d
      → IsWithin ((find_missing_message prim message d).1)
  unfolding find_missing_message
  find_missing_message-IsWithin message d h =
      go (take_missing message.id d.missing_messages)
        (take_missing-Fits message.id d.missing_messages)
    where
      go :
          (found : Option (ℕ × List (MessageId × ℕ)))
          → Fits (length d.missing_messages) found
          → IsWithin (
              (elim found as (λ x. Outcome × DoubleRatchet) [
                | none ↦ (err missing_message, d)
                | some (secret, others) ↦ (ok secret, record d { missing_messages = others })
              ]).1)
      go none fits = h
      go (some (s, rest)) fits = omega (arith, fits, h)

  recv_current-IsWithin :
      (message : MessageHeader) (d : DoubleRatchet)
      → IsWithin d
      → IsWithin ((recv_current prim message d).1)
  unfolding recv_current
  recv_current-IsWithin message d h =
      go (add_missing_message prim (message.id).sub_step d)
        (add_missing_message-Either (message.id).sub_step d h)
    where
      go :
          (added : Result DoubleRatchet RecvError)
          → Either IsWithin (λ e. Unit {0}) added
          → IsWithin (
              (elim added as (λ x. Outcome × DoubleRatchet) [
                | err e ↦ (err e, d)
                | ok kept ↦
                    let key = next_sc prim kept.receiver in
                    (ok (key.0), record kept { receiver = key.1 })
              ]).1)
      go (ok kept) within = within
      go (err e) within = h

  renew_kyber-Either :
      (kyb : Option Kyber) (input : ℕ) (rng : Fresh) (d : DoubleRatchet)
      → IsWithin d
      → Either (λ r. IsWithin (r.1)) (λ e. Unit {0}) (renew_kyber prim kyb input rng d)
  unfolding renew_kyber
  renew_kyber-Either none input rng d h = h
  renew_kyber-Either (some kyb) input rng d h = go (prim.decapsulate kyb.cp d.kyber)
    where
      go :
          (opened : Option ℕ)
          → Either
              (λ r. IsWithin (r.1))
              (λ e. Unit {0})
              (elim opened as (λ x. Result (ℕ × DoubleRatchet) RecvError) [
                | none ↦ err decapsulation
                | some sec ↦
                    let sealed = prim.encapsulate kyb.public rng.encapsulation in
                    ok (xor input sec, record d { kyber = rng.kyber; cp = sealed.0; ss = sealed.1 })
              ])
      go none = tt
      go (some sec) = h

  turn-Either :
      (message : MessageHeader) (rng : Fresh) (d : DoubleRatchet)
      → IsWithin d
      → Either IsWithin (λ e. IsWithin (e.1)) (turn prim message rng d)
  unfolding turn step_root
  turn-Either message rng d h =
      go (add_missing_message prim message.prev_sub_count d)
        (add_missing_message-Either message.prev_sub_count d h)
    where
      finish :
          (fresh : DoubleRatchet) (renewed : Result (ℕ × DoubleRatchet) RecvError)
          → IsWithin fresh
          → Either (λ r. IsWithin (r.1)) (λ e. Unit {0}) renewed
          → Either IsWithin
              (λ e. IsWithin (e.1))
              (elim renewed as (λ x. Result DoubleRatchet (RecvError × DoubleRatchet)) [
                | err e ↦ err (e, fresh)
                | ok (input, left) ↦ ok (step_root prim message.x25519 input left)
              ])
      finish fresh (err e) kept within = kept
      finish fresh (ok (input, left)) kept within = within

      go :
          (added : Result DoubleRatchet RecvError)
          → Either IsWithin (λ e. Unit {0}) added
          → Either IsWithin
              (λ e. IsWithin (e.1))
              (elim added as (λ x. Result DoubleRatchet (RecvError × DoubleRatchet)) [
                | err e ↦ err (e, d)
                | ok kept ↦
                    let receiver_input = prim.dh kept.x25519 message.x25519 in
                    let fresh = record kept { x25519 = rng.x25519 } in
                    elim (renew_kyber prim message.kyber receiver_input rng fresh) [
                      | err e ↦ err (e, fresh)
                      | ok (input, left) ↦ ok (step_root prim message.x25519 input left)
                    ]
              ])
      go (err e) within = h
      go (ok kept) within =
          finish (record kept { x25519 = rng.x25519 }) _ within
            (renew_kyber-Either message.kyber (prim.dh kept.x25519 message.x25519) rng
              (record kept { x25519 = rng.x25519 }) within)

  recv_ahead-IsWithin :
      (message : MessageHeader) (turned : Result DoubleRatchet (RecvError × DoubleRatchet))
      → Either IsWithin (λ e. IsWithin (e.1)) turned
      → IsWithin (
          (elim turned as (λ x. Outcome × DoubleRatchet) [
            | err (e, left) ↦ (err e, left)
            | ok d ↦ recv_current prim message d
          ]).1)
  recv_ahead-IsWithin message (err (e, left)) h = h
  recv_ahead-IsWithin message (ok d) h = recv_current-IsWithin message d h

  recv-IsWithin :
      (message : MessageHeader) (rng : Fresh) (d : DoubleRatchet)
      → IsWithin d
      → IsWithin ((recv prim message rng d).1)
  unfolding recv
  recv-IsWithin message rng d h = elim (Bool-cases (ltb (message.id).step (d.root).step)) [
    | inl old ↦ rw old (find_missing_message-IsWithin message d h)
    | inr new ↦ elim (Bool-cases ((message.id).step == (d.root).step)) [
      | inl same ↦ elim (Bool-cases (ltb (message.id).sub_step (d.receiver).step)) [
        | inl late ↦ rw (new, same, late) (find_missing_message-IsWithin message d h)
        | inr next ↦ rw (new, same, next) (recv_current-IsWithin message d h)
      ]
      | inr ahead ↦ rw (new, ahead) (recv_ahead-IsWithin message _ (turn-Either message rng d h))
    ]
  ]

  send-IsWithin : (d : DoubleRatchet) → IsWithin d → IsWithin ((send prim d).1)
  unfolding send begin_chain
  send-IsWithin d h = elim (Bool-cases ((d.sender).step == u32_max)) [
    | inl waits ↦ rw waits h
    | inr runs ↦ rw runs h
  ]

  abbrev pub call : Call → DoubleRatchet → DoubleRatchet
  call sends d = (send prim d).1
  call (receives message rng) d = (recv prim message rng d).1

  abbrev pub calls : List Call → DoubleRatchet → DoubleRatchet
  calls [] d = d
  calls (c ∷ cs) d = calls cs (call c d)

  calls-IsWithin : (cs : List Call) (d : DoubleRatchet) → IsWithin d → IsWithin (calls cs d)
  calls-IsWithin [] d h = h
  calls-IsWithin (sends ∷ cs) d h = calls-IsWithin cs (call sends d) (send-IsWithin d h)
  calls-IsWithin (receives message rng ∷ cs) d h =
      calls-IsWithin cs (call (receives message rng) d) (recv-IsWithin message rng d h)

  -- Whatever headers arrive, in whatever order with the messages that are sent, neither end of a
  -- handshake ever keeps more than five secrets for late messages.
  pub calls-sender-recipient-IsWithin :
      (secret : ℕ) (init : InitiatiorKey) (rng : Fresh) (cs : List Call)
      → IsWithin (calls cs ((sender prim secret rng).0))
        × IsWithin (calls cs ((recipient prim secret init rng).0))
  unfolding sender recipient
  calls-sender-recipient-IsWithin secret init rng cs =
      (calls-IsWithin cs _ (omega arith), calls-IsWithin cs _ (omega arith))
