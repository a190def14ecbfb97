-- ===== src/Ratchet/Conversation.antt =====
-- crypto/double-ratchet/src/lib.rs: a conversation in which each message is received before the
-- next one is sent. One end leads, with a chain of its own; the other follows, and leads once it
-- replies.
use onion_network.Base.{
  ℕ, ◌+◌, ◌-◌, ◌%◌, ◌^◌, ◌<◌, ◌≡◌, ◌≢◌, refl, sym, ap, ◌∙◌, some, true, false, List, [], ◌∷◌, ◌==◌,
  Bool-cases, inl, inr, if◌then◌else◌, arith,
}
use onion_network.Codec.Sum.{ok}
use onion_network.Ratchet.Chain.{
  Primitives, Agreement, from_secret, new_guarding, next_sc, next_rk, xor, u32_max,
}
use onion_network.Ratchet.Session.{
  DoubleRatchet, Fresh, Outcome, kyber_period, recv, renew_kyber, step_root, send, begin_chain,
  header,
}
use onion_network.Ratchet.Recv.{taken_secret, recv-same, recv-turn}

-- The secret of the one who sends, what the other one gets, and the hashes by which both name the
-- chain of the message.
pub record Delivery : Type 0 where
  pub secret : ℕ
  pub outcome : Outcome
  pub sender_hash : ℕ
  pub receiver_hash : ℕ

abbrev pub IsAgreed : Delivery → Type 0
IsAgreed x = (x.outcome ≡ ok x.secret) × (x.sender_hash ≡ x.receiver_hash)

pub data Turn : Type 0 where
  again : Fresh → Turn
  reply : Fresh → Turn

module _ (prim : Primitives) where
  unfoldable pub exchange :
      Fresh → DoubleRatchet → DoubleRatchet → Delivery × DoubleRatchet × DoubleRatchet
  exchange rng from to =
      let sent = send prim from in
      let got = recv prim (sent.0.0) rng to in
      (
        record {
          secret = sent.0.1;
          outcome = got.0;
          sender_hash = (sent.1).sender_hash;
          receiver_hash = (got.1).receiver_hash;
        },
        sent.1,
        got.1,
      )

  unfoldable pub converse : List Turn → DoubleRatchet → DoubleRatchet → List Delivery
  converse [] leader follower = []
  converse (again rng ∷ turns) leader follower =
      let x = exchange rng leader follower in x.0 ∷ converse turns (x.1) (x.2)
  converse (reply rng ∷ turns) leader follower =
      let x = exchange rng follower leader in x.0 ∷ converse turns (x.1) (x.2)

  -- The second end can open what the first one has sealed.
  abbrev pub Opens : DoubleRatchet → DoubleRatchet → Type 0
  Opens a b = prim.decapsulate a.cp b.kyber ≡ some a.ss

  -- The steps of the root until the next exchange of Kyber keys.
  abbrev pub gap : ℕ → ℕ
  gap step = kyber_period - step % kyber_period

  pub record Leads (leader follower : DoubleRatchet) : Type 0 where
    pub same_root : leader.root ≡ follower.root
    pub same_chain : leader.sender ≡ follower.receiver
    pub same_hash : leader.sender_hash ≡ follower.receiver_hash
    pub waits :
        follower.sender ≡ new_guarding (prim.dh follower.x25519 (prim.public_of leader.x25519))
    pub counted : follower.prev_sub_count ≡ (leader.receiver).step
    pub follower_opens : gap (leader.root).step % 2 ≡ 0 → Opens leader follower
    pub leader_opens : gap (leader.root).step % 2 ≡ 1 → Opens follower leader

  -- The state that a message of the chain leaves with its sender.
  abbrev pub sent : DoubleRatchet → DoubleRatchet
  sent d = record d { sender = (next_sc prim d.sender).1 }

  pub send-chain :
      (d : DoubleRatchet)
      → (d.sender).step < u32_max
      → send prim d ≡ ((header prim d, (next_sc prim d.sender).0), sent d)
  unfolding send
  send-chain d h = rw other refl
    where
      other : ((d.sender).step == u32_max) ≡ false
      other = ground arith

  pub exchange-again :
      (rng : Fresh) (l f : DoubleRatchet)
      → Leads l f
      → (l.sender).step < u32_max
      → IsAgreed ((exchange rng l f).0) × Leads ((exchange rng l f).1) ((exchange rng l f).2)
  unfolding exchange header taken_secret
  exchange-again rng l f leads room =
      rw
        (
          send-chain l room,
          recv-same prim f (header prim l) rng (ap (λ c. c.step) leads.same_root)
              (ap (λ c. c.step) leads.same_chain),
        )
        (
          (ap (λ c. ok ((next_sc prim c).0)) (sym leads.same_chain), leads.same_hash),
          record {
            same_root = leads.same_root;
            same_chain = ap (λ c. (next_sc prim c).1) leads.same_chain;
            same_hash = leads.same_hash;
            waits = leads.waits;
            counted = leads.counted;
            follower_opens = leads.follower_opens;
            leader_opens = leads.leader_opens;
          },
        )

  pub send-waiting :
      (d : DoubleRatchet)
      → (d.sender).step ≡ u32_max
      → send prim d ≡ (
        (header prim (begin_chain prim d), (next_sc prim (begin_chain prim d).sender).0),
        sent (begin_chain prim d),
      )
  unfolding send
  send-waiting d h = rw waiting refl
    where
      waiting : ((d.sender).step == u32_max) ≡ true
      waiting = ground arith

  -- The state of the follower whose Kyber keys are renewed, as they may be.
  abbrev renewed : Fresh → ℕ → ℕ → ℕ → DoubleRatchet → DoubleRatchet
  renewed rng kyber cp ss d = record d { kyber = kyber; cp = cp; ss = ss; x25519 = rng.x25519 }

  abbrev next_step : DoubleRatchet → ℕ
  next_step d = ((d.root).step + 1) % 2 ^ 32

  abbrev seed : DoubleRatchet → ℕ
  seed d = if next_step d % kyber_period == 0 then xor (d.sender).root d.ss else (d.sender).root

  exchange-reply_with :
      (rng : Fresh) (l f : DoubleRatchet) (k c s : ℕ)
      → Leads l f
      → (l.root).step < u32_max
      → renew_kyber prim
          (header prim (begin_chain prim f)).kyber
          (prim.dh l.x25519 (prim.public_of f.x25519))
          rng
          (record l { x25519 = rng.x25519 })
        ≡ ok (seed f, renewed rng k c s l)
      → (gap (next_step f) % 2 ≡ 0 → prim.decapsulate f.cp k ≡ some f.ss)
      → (gap (next_step f) % 2 ≡ 1 → prim.decapsulate c f.kyber ≡ some s)
      → IsAgreed ((exchange rng f l).0) × Leads ((exchange rng f l).1) ((exchange rng f l).2)
  unfolding exchange header taken_secret begin_chain step_root
  exchange-reply_with rng l f k c s leads room renews even odd =
      rw
        (
          send-waiting f (ap (λ c. c.step) leads.waits),
          recv-turn prim l (renewed rng k c s l) (header prim (begin_chain prim f)) rng (seed f)
              ahead leads.counted refl renews,
        )
        (
          (
            ap (λ r. ok ((next_sc prim (from_secret ((next_rk prim (seed f) r).0))).0))
                leads.same_root,
            ap (λ r. prim.hash ((next_rk prim (seed f) r).0)) (sym leads.same_root),
          ),
          record {
            same_root = ap (λ r. (next_rk prim (seed f) r).1) (sym leads.same_root);
            same_chain =
                ap (λ r. (next_sc prim (from_secret ((next_rk prim (seed f) r).0))).1)
                  (sym leads.same_root);
            same_hash = ap (λ r. prim.hash ((next_rk prim (seed f) r).0)) (sym leads.same_root);
            waits = refl;
            counted = ap (λ c. c.step) leads.same_chain;
            follower_opens = even;
            leader_opens = odd;
          },
        )
    where
      ahead : (l.root).step < ((f.root).step + 1) % 2 ^ 32
      ahead = let same = ap (λ c. c.step) leads.same_root in omega arith

  agreed_input :
      (l f : DoubleRatchet)
      → Agreement prim
      → Leads l f
      → prim.dh l.x25519 (prim.public_of f.x25519) ≡ (f.sender).root
  agreed_input l f law leads = law.dh_comm l.x25519 f.x25519 ∙ sym (ap (λ c. c.root) leads.waits)

  pub exchange-reply :
      (rng : Fresh) (l f : DoubleRatchet)
      → Agreement prim
      → Leads l f
      → (l.root).step < u32_max
      → IsAgreed ((exchange rng f l).0) × Leads ((exchange rng f l).1) ((exchange rng f l).2)
  unfolding header begin_chain renew_kyber
  exchange-reply rng l f law leads room = elim (Bool-cases (next_step f % kyber_period == 0)) [
    | inl due ↦
        let sealed = prim.encapsulate (prim.kyber_public f.kyber) rng.encapsulation in
        let zero_step = due_step due in
        exchange-reply_with rng l f rng.kyber (sealed.0) (sealed.1) leads room
          (rw (due, leads.leader_opens (before_due zero_step), agreed_input l f law leads) refl)
          (λ even. absurd (omega (arith, even, zero_step)))
          (λ odd. law.decapsulate-encapsulate f.kyber rng.encapsulation)
    | inr other ↦
        let later = other_step other in
        exchange-reply_with rng l f l.kyber l.cp l.ss leads room
          (rw (other, agreed_input l f law leads) refl)
          (λ even. leads.leader_opens (flipped_even later even))
          (λ odd. leads.follower_opens (flipped_odd later odd))
  ]
    where
      same : (l.root).step ≡ (f.root).step
      same = ap (λ c. c.step) leads.same_root

      due_step : (next_step f % kyber_period == 0) ≡ true → next_step f % kyber_period ≡ 0
      due_step due = ground arith

      other_step : (next_step f % kyber_period == 0) ≡ false → next_step f % kyber_period ≢ 0
      other_step other = ground arith

      before_due : next_step f % kyber_period ≡ 0 → gap (l.root).step % 2 ≡ 1
      before_due due = omega (arith, same, due, room)

      flipped_even :
          next_step f % kyber_period ≢ 0 → gap (next_step f) % 2 ≡ 0 → gap (l.root).step % 2 ≡ 1
      flipped_even later even = omega (arith, same, later, even, room)

      flipped_odd :
          next_step f % kyber_period ≢ 0 → gap (next_step f) % 2 ≡ 1 → gap (l.root).step % 2 ≡ 0
      flipped_odd later odd = omega (arith, same, later, odd, room)
