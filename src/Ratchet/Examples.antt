-- ===== src/Ratchet/Examples.antt =====
-- Primitives that agree, and a conversation on them, for the theorems on
-- crypto/double-ratchet/src/lib.rs.
use onion_network.Base.{
  ℕ, ◌+◌, ◌-◌, ◌*◌, ◌≡◌, refl, Option, none, some, List, [], ◌∷◌, All, leb, if◌then◌else◌, arith,
}
use onion_network.Codec.Sum.{ok}
use onion_network.Ratchet.Chain.{Primitives, Agreement, Info, sub_chain, root_chain}
use onion_network.Ratchet.Session.{
  DoubleRatchet, MessageHeader, InitiatiorKey, Fresh, Outcome, sender, recipient, recv,
}
use onion_network.Ratchet.Conversation.{Turn, again, reply, IsAgreed, converse}
use onion_network.Ratchet.Agreed.{converse-sender-recipient}
use onion_network.Ratchet.Gap.{nth_message}
use onion_network.Ratchet.Late.{late_outcomes, each_once, recv-late}
use onion_network.Ratchet.Bounds.{IsWithin, sends, receives, calls, calls-sender-recipient-IsWithin}

abbrev label : Info → ℕ
label sub_chain = 1
label root_chain = 2

abbrev open_sum : ℕ → ℕ → Option ℕ
open_sum cp seed = if leb seed cp then some (cp - seed) else none

abbrev sums : Primitives
sums = record {
  hkdf = λ root input info. (root + input + label info, 3 * root + input + label info);
  hash = λ n. n + 7;
  public_of = λ n. n;
  dh = λ a b. a + b;
  kyber_public = λ seed. seed;
  encapsulate = λ public randomness. (public + randomness, randomness);
  decapsulate = open_sum;
}

sums-Agreement : Agreement sums
sums-Agreement = record {
  dh_comm = λ a b. omega arith;
  decapsulate-encapsulate = λ seed randomness. opens seed randomness;
}
  where
    opens : (seed randomness : ℕ) → open_sum (seed + randomness) seed ≡ some randomness
    opens seed randomness = ground arith

abbrev drawn : ℕ → Fresh
drawn n = record { x25519 = n; kyber = n + 1; encapsulation = n + 2 }

abbrev alice : DoubleRatchet
alice = (sender sums 5 (drawn 10)).0

abbrev key : InitiatiorKey
key = (sender sums 5 (drawn 10)).1

abbrev bob : DoubleRatchet
bob = (recipient sums 5 key (drawn 20)).0

abbrev three_turns : List Turn
three_turns = reply (drawn 30) ∷ again (drawn 40) ∷ reply (drawn 50) ∷ []

converse-sender-recipient_example :
    ((sender sums 5 (drawn 10)).2 ≡ (recipient sums 5 key (drawn 20)).1)
    × All IsAgreed (converse sums three_turns alice bob)
converse-sender-recipient_example =
    converse-sender-recipient sums sums-Agreement 5 (drawn 10) (drawn 20) three_turns (omega arith)

-- Three of the four messages before the fifth come late, in another order, and one of them twice.
abbrev late_ones : List (ℕ × Fresh)
late_ones = (3, drawn 40) ∷ (0, drawn 50) ∷ (3, drawn 60) ∷ (1, drawn 70) ∷ []

abbrev fifth : Outcome × DoubleRatchet
fifth = recv sums ((nth_message sums 4 alice).0) (drawn 30) bob

recv-late_example :
    (fifth.0 ≡ ok ((nth_message sums 4 alice).1))
    × (late_outcomes sums alice (fifth.1) late_ones ≡ each_once sums alice [] late_ones)
unfolding sender recipient
recv-late_example =
    recv-late sums alice bob 4 (drawn 30) late_ones refl refl refl (omega arith)
      (omega arith, (omega arith, (omega arith, (omega arith, tt)))) (omega arith)

abbrev far : MessageHeader
far = record {
  id = record { step = 2; sub_step = 9 };
  prev_sub_count = 0;
  kyber = none;
  x25519 = 3;
}

calls-sender-recipient-IsWithin_example :
    IsWithin
      (calls sums (sends ∷ receives far (drawn 30) ∷ sends ∷ []) ((sender sums 5 (drawn 20)).0))
    × IsWithin (calls sums (sends ∷ receives far (drawn 30) ∷ sends ∷ []) bob)
calls-sender-recipient-IsWithin_example =
    calls-sender-recipient-IsWithin sums 5 key (drawn 20)
      (sends ∷ receives far (drawn 30) ∷ sends ∷ [])
