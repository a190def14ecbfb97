-- ===== src/Streaming/Owed.antt =====
-- protocols/streaming/src/lib.rs: the requests that are pending on a connection are those that its
-- handler is still to make, has made, or has the results of.
use onion_network.Base.{
  ℕ, zero, suc, ◌+◌, ◌≡◌, ◌⊎◌, refl, sym, ap, ◌∙◌, false, ◌&&◌, Option, some, List, [], ◌∷◌, ◌==◌,
  ==_refl, Bool-cases, Option-cases, inl, inr, arith,
}
use mathlib.Core.Path.{subst}
use onion_network.Base.Entries.{remove_key}
use onion_network.Codec.Sum.{err}
use onion_network.Streaming.Behaviour.{
  HEvent, incoming, outgoing, ToSwarm, dial, generate_event, notify_handler, Behaviour, Connection,
  find_connection, push_errors, hand_on, connection_gone, create_stream, group_of, outgoing_stream,
  Error, total_requests,
}
use onion_network.Streaming.Pending.{pending_at, Apart, same-cases}
use onion_network.Streaming.System.{Link, System, set_link, count, with_link}
use onion_network.Streaming.Weights.{weight, one_of, for_each, not_same}

abbrev pub results : List HEvent → ℕ
results [] = 0
results (incoming s ∷ stream) = results stream
results (outgoing e ∷ stream) = suc (results stream)

abbrev pub owed : Link → ℕ
owed l = (l.handler).to_request + l.asked + results ((l.handler).stream)

abbrev pub AllOwed : (ℕ → ℕ → Option Link) → Behaviour → Type 0
AllOwed links b = (q j : ℕ) (l : Link) → links q j ≡ some l → pending_at q j b ≡ some (owed l)

-- No message to a handler waits among the events.
abbrev pub Plain : ToSwarm → Type 0
Plain (dial peer cid) = Unit
Plain (generate_event e) = Unit
Plain (notify_handler peer cid glass) = ⊥

abbrev pub AllPlain : List ToSwarm → Type 0
AllPlain [] = Unit
AllPlain (e ∷ events) = Plain e × AllPlain events

abbrev pub Conserved : System → Type 0
Conserved s = (q : ℕ) → s.created q ≡ s.delivered q + weight q s.behaviour

abbrev pub IsSound : System → Type 0
IsSound s = AllOwed s.links s.behaviour × (AllPlain (s.behaviour).events × Conserved s)

pub AllOwed-set_link :
    (p i : ℕ) (o : Option Link) (links : ℕ → ℕ → Option Link) (b : Behaviour)
    → ((l : Link) → o ≡ some l → pending_at p i b ≡ some (owed l))
    → ((q j : ℕ) (l : Link) → Apart p i q j → links q j ≡ some l → pending_at q j b ≡ some (owed l))
    → AllOwed (set_link p i o links) b
AllOwed-set_link p i o links b here there q j l e = elim (Bool-cases ((p == q) && (i == j))) [
  | inl same ↦
      subst (λ r. pending_at r j b ≡ some (owed l)) (ground (arith, same))
        (subst (λ k. pending_at p k b ≡ some (owed l)) (ground (arith, same))
          (here l (sym (rw same refl) ∙ e)))
  | inr other ↦ there q j l (apart (same-cases p i q j) other) (sym (rw other refl) ∙ e)
]
  where
    apart : ((p ≡ q) × (i ≡ j)) ⊎ Apart p i q j → ((p == q) && (i == j)) ≡ false → Apart p i q j
    apart (inr a) other = a
    apart (inl (peers, keys)) other = ground (arith, peers, keys, other)

pub count_lem : (p : ℕ) (f : ℕ → ℕ) (q : ℕ) → count p f q ≡ f q + one_of p q
count_lem p f =
    for_each p (λ q. count p f q ≡ f q + one_of p q) (rw (==_refl p) (omega arith))
      (λ q apart. rw (not_same p q apart) (omega arith))

-- A link that owes what the one before owed.
pub IsSound-with_link :
    (p i : ℕ) (l after : Link) (s : System)
    → s.links p i ≡ some l
    → owed after ≡ owed l
    → IsSound s
    → IsSound (with_link p i after s)
IsSound-with_link p i l after s there same (all, rest) = (
  AllOwed-set_link p i (some after) s.links s.behaviour
      (λ k e.
        all p i l there ∙ ap some (sym same ∙ subst (λ m. owed after ≡ owed m) (is_same k e) refl))
      (λ q j k apart e. all q j k e),
  rest,
)
  where
    is_same : (k : Link) → some after ≡ some k → after ≡ k
    is_same k e = cc

pub push_errors-AllPlain :
    (n p : ℕ) (e : Error) (events : List ToSwarm)
    → AllPlain events
    → AllPlain (push_errors n p e events)
unfolding push_errors
push_errors-AllPlain zero p e events plain = plain
push_errors-AllPlain (suc n) p e events plain =
    push_errors-AllPlain n p e (generate_event (outgoing_stream p (err e)) ∷ events) (tt, plain)

hand_on-AllPlain :
    (total p : ℕ) (e : Error) (g : List (ℕ × Connection)) (b : Behaviour)
    → AllPlain b.events
    → AllPlain ((hand_on total p e g b).events)
unfolding hand_on
hand_on-AllPlain total p e [] b plain = push_errors-AllPlain total p e b.events plain
hand_on-AllPlain total p e ((k, c) ∷ rest) b plain = plain

pub connection_gone-AllPlain :
    (p i : ℕ) (e : Error) (b : Behaviour)
    → AllPlain b.events
    → AllPlain ((connection_gone p i e b).events)
unfolding connection_gone
connection_gone-AllPlain p i e b plain = elim (Option-cases (find_connection p i b)) [
  | inl missing ↦ rw (connection_gone, missing) plain
  | inr (c, found) ↦
      rw (connection_gone, found)
        (hand_on-AllPlain (total_requests c) p e (remove_key i (group_of p b)) b plain)
]

pub create_stream-AllPlain :
    (p i : ℕ) (b : Behaviour) → AllPlain b.events → AllPlain ((create_stream p i b).events)
unfolding create_stream
create_stream-AllPlain p i b plain = go (group_of p b) refl
  where
    go : (g : List (ℕ × Connection)) → group_of p b ≡ g → AllPlain ((create_stream p i b).events)
    go [] e = rw (create_stream, e) (tt, plain)
    go (x ∷ rest) e = rw (create_stream, e) plain
