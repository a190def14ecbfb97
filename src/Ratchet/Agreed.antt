-- ===== src/Ratchet/Agreed.antt =====
-- crypto/double-ratchet/src/lib.rs: the handshake starts a conversation that stays in agreement.
use onion_network.Base.{ℕ, suc, ◌+◌, ◌<◌, ◌≡◌, refl, ap, List, [], ◌∷◌, length, All, arith}
use onion_network.Ratchet.Chain.{Primitives, Agreement, u32_max}
use onion_network.Ratchet.Session.{DoubleRatchet, Fresh, begin_chain, sender, recipient}
use onion_network.Ratchet.Conversation.{
  Turn, again, reply, IsAgreed, converse, exchange, Leads, exchange-again, exchange-reply,
  send-chain, send-waiting,
}

module _ (prim : Primitives) where
  -- The counters of a leader stay below the mark of a waiting sender for so many exchanges.
  record HasRoom (leader : DoubleRatchet) (n : ℕ) : Type 0 where
    pub of_chain : (leader.sender).step + n < u32_max
    pub of_root : (leader.root).step + n < u32_max

  exchange-again-HasRoom :
      (rng : Fresh) (l f : DoubleRatchet) (n : ℕ)
      → HasRoom l (suc n)
      → HasRoom ((exchange prim rng l f).1) n
  unfolding exchange
  exchange-again-HasRoom rng l f n room =
      rw (send-chain prim l (omega (arith, room.of_chain)))
        (record { of_chain = omega (arith, room.of_chain); of_root = omega (arith, room.of_root) })

  exchange-reply-HasRoom :
      (rng : Fresh) (l f : DoubleRatchet) (n : ℕ)
      → Leads prim l f
      → HasRoom l (suc n)
      → HasRoom ((exchange prim rng f l).1) n
  unfolding exchange begin_chain
  exchange-reply-HasRoom rng l f n leads room =
      rw (send-waiting prim f (ap (λ c. c.step) leads.waits)) (record {
        of_chain = omega (arith, room.of_chain);
        of_root = let same = ap (λ c. c.step) leads.same_root in omega (arith, same, room.of_root);
      })

  converse-All :
      (turns : List Turn) (l f : DoubleRatchet)
      → Agreement prim
      → Leads prim l f
      → HasRoom l (length turns)
      → All IsAgreed (converse prim turns l f)
  unfolding converse
  converse-All [] l f law leads room = tt
  converse-All (again rng ∷ turns) l f law leads room =
      let step = exchange-again prim rng l f leads (omega (arith, room.of_chain)) in
      (
        step.0,
        converse-All turns _ _ law (step.1) (exchange-again-HasRoom rng l f (length turns) room),
      )
  converse-All (reply rng ∷ turns) l f law leads room =
      let step = exchange-reply prim rng l f law leads (omega (arith, room.of_root)) in
      (
        step.0,
        converse-All turns _ _ law (step.1)
            (exchange-reply-HasRoom rng l f (length turns) leads room),
      )

  handshake-Leads :
      (secret : ℕ) (ours theirs : Fresh)
      → Agreement prim
      → let first = sender prim secret ours in
        Leads prim (first.0) ((recipient prim secret (first.1) theirs).0)
  unfolding sender recipient
  handshake-Leads secret ours theirs law = record {
    same_root = refl;
    same_chain = refl;
    same_hash = refl;
    waits = refl;
    counted = refl;
    follower_opens = λ even. absurd (omega (arith, even));
    leader_opens = λ odd. law.decapsulate-encapsulate ours.kyber theirs.encapsulation;
  }

  -- Where the primitives agree, both ends of a handshake get the same identity, and in a
  -- conversation of fewer than 2 ^ 32 - 3 messages, each received before the next is sent, in
  -- whatever order the two take turns, `recv` gives the secret of `send` for every message and
  -- the hash of the receiver is that of the sender.
  pub converse-sender-recipient :
      (law : Agreement prim) (secret : ℕ) (ours theirs : Fresh) (turns : List Turn)
      → length turns + 2 < u32_max
      → let first = sender prim secret ours in
        let second = recipient prim secret (first.1) theirs in
        (first.2 ≡ second.1) × All IsAgreed (converse prim turns (first.0) (second.0))
  unfolding sender recipient
  converse-sender-recipient law secret ours theirs turns room = (
    refl,
    converse-All turns _ _ law (handshake-Leads secret ours theirs law)
        (record { of_chain = omega (arith, room); of_root = omega (arith, room) }),
  )
