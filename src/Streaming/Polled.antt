-- ===== src/Streaming/Polled.antt =====
-- protocols/streaming/src/lib.rs: what is polled, from the
-- behaviour and from the handlers.
use onion_network.Base.{
  ℕ, ◌+◌, ◌≡◌, refl, sym, ap, ◌∙◌, true, Option, none, some, List, [], ◌∷◌, arith,
}
use mathlib.Core.Path.{subst}
use mathlib.Core.Option.{some-injective}
use onion_network.Streaming.Behaviour.{
  ToSwarm, dial, generate_event, notify_handler, incoming_stream, outgoing_stream, Behaviour, poll,
  on_behaviour_event, Connection, find_connection, set_connection, all_pending, all_keys, find_new,
}
use onion_network.Streaming.Pending.{
  pending_of, pending_at, pending_at-set_connection, pending_at-set_connection_other,
}
use onion_network.Streaming.System.{
  Link, System, set_link, settles, deliver, notified, with_behaviour, hand_out, polled,
}
use onion_network.Streaming.Weights.{weight, queued}
use onion_network.Streaming.Delivered.{find_new-IsThere, IsThere, weight-notified}
use onion_network.Streaming.Owed.{
  owed, AllOwed, AllPlain, Plain, IsSound, AllOwed-set_link, count_lem,
}

-- What a delivered event leaves, given that no message waited.
deliver-IsSound :
    (e : ToSwarm) (s : System)
    → Plain e
    → AllOwed s.links s.behaviour
    → AllPlain (s.behaviour).events
    → ((q : ℕ) → s.created q ≡ s.delivered q + (weight q s.behaviour + settles q e))
    → IsSound (deliver e s)
deliver-IsSound (dial p i) s plain all rest conserved =
    (all, (rest, λ q. omega (arith, conserved q)))
deliver-IsSound (generate_event (incoming_stream p i)) s plain all rest conserved =
    (all, (rest, λ q. omega (arith, conserved q)))
deliver-IsSound (generate_event (outgoing_stream p r)) s plain all rest conserved =
    (all, (rest, λ q. omega (arith, conserved q, count_lem p s.delivered q)))
deliver-IsSound (notify_handler p i glass) s plain all rest conserved = absurd plain

notified-owed :
    (glass : ℕ) (l : Link)
    → owed (record l { handler = on_behaviour_event glass l.handler }) ≡ owed l + glass
unfolding on_behaviour_event
notified-owed glass l = omega arith

notify-AllOwed :
    (p i : ℕ) (c : Connection) (s : System)
    → find_connection p i s.behaviour ≡ some c
    → AllOwed s.links s.behaviour
    → AllOwed
        (set_link p i (notified c.new_requests (s.links p i)) s.links)
        (set_connection p i (all_pending c) s.behaviour)
notify-AllOwed p i c s found all =
    AllOwed-set_link p i (notified c.new_requests (s.links p i)) s.links
      (set_connection p i (all_pending c) s.behaviour) (go (s.links p i) refl)
      (λ q j l apart e.
        pending_at-set_connection_other p s.behaviour i q j (all_pending c) apart ∙ all q j l e)
  where
    go :
        (o : Option Link)
        → s.links p i ≡ o
        → (l : Link) → notified c.new_requests o ≡ some l
        → pending_at p i (set_connection p i (all_pending c) s.behaviour) ≡ some (owed l)
    go none e l f = absurd (nothing f)
      where
        nothing : none ≡ some l → ⊥
        nothing g = cc
    go (some k) e l f =
        pending_at-set_connection p s.behaviour i (all_pending c)
        ∙ ap some (grown ∙ ap owed (same l f))
      where
        before : c.pending_requests ≡ owed k
        before = some-injective _ _ (sym (ap pending_of found) ∙ all p i k e)

        grown :
            c.pending_requests + c.new_requests
            ≡ owed (record k { handler = on_behaviour_event c.new_requests k.handler })
        grown = omega (arith, before, notified-owed c.new_requests k)

        same :
            (m : Link)
            → notified c.new_requests (some k) ≡ some m
            → record k { handler = on_behaviour_event c.new_requests k.handler } ≡ m
        same m g = some-injective _ _ g

-- What each way to end `poll` gives.
module _ (b : Behaviour) where
  poll-notify :
      (p i : ℕ) (c : Connection)
      → find_new (all_keys b.connections) b ≡ some (p, i, c)
      → poll b ≡ (some (notify_handler p i c.new_requests), set_connection p i (all_pending c) b)
  unfolding poll
  poll-notify p i c e = rw (poll, e) refl

  poll-event :
      (event : ToSwarm) (events : List ToSwarm)
      → find_new (all_keys b.connections) b ≡ none
      → b.events ≡ event ∷ events
      → poll b ≡ (some event, record b { events = events })
  unfolding poll
  poll-event event events nothing e = rw (poll, nothing, e) refl

  poll-nothing :
      find_new (all_keys b.connections) b ≡ none
      → b.events ≡ []
      → poll b ≡ (none, record b { waker = true })
  unfolding poll
  poll-nothing nothing e =
      rw (poll, nothing, e) (ap (λ l. (none, record b { events = l; waker = true })) e)

pub polled-IsSound : (s : System) → IsSound s → IsSound (polled s)
polled-IsSound s (all, (plain, conserved)) = go (find_new (all_keys b.connections) b) refl
  where
    b : Behaviour
    b = s.behaviour

    ends :
        (r : Option ToSwarm × Behaviour) → poll b ≡ r → IsSound (hand_out r s) → IsSound (polled s)
    ends r e sound = subst (λ x. IsSound (hand_out x s)) (sym e) sound

    queue :
        find_new (all_keys b.connections) b ≡ none
        → (events : List ToSwarm) → b.events ≡ events
        → AllPlain events
        → IsSound (polled s)
    queue nothing [] e quiet = ends _ (poll-nothing b nothing e) (all, (plain, conserved))
    queue nothing (event ∷ events) e (first, others) =
        ends _ (poll-event b event events nothing e) (
          deliver-IsSound event (with_behaviour (record b { events = events }) s) first all others
            (λ q. omega (arith, conserved q, ap (queued q) e)))

    go :
        (o : Option (ℕ × ℕ × Connection))
        → find_new (all_keys b.connections) b ≡ o
        → IsSound (polled s)
    go none e = queue e b.events refl plain
    go (some (p, i, c)) e = ends _ (poll-notify b p i c e) (
      notify-AllOwed p i c s found all,
      (plain, λ q. omega (arith, conserved q, weight-notified p i c b found q)),
    )
      where
        found : find_connection p i b ≡ some c
        found = subst (IsThere b) e (find_new-IsThere (all_keys b.connections) b)
