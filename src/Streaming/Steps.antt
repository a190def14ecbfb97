-- ===== src/Streaming/Steps.antt =====
-- protocols/streaming/src/lib.rs: streams that are created, and
-- connections that come and go.
use onion_network.Base.{
  ℕ, ◌≡◌, ◌⊎◌, refl, sym, ap, ◌∙◌, Bool, true, false, ◌&&◌, Option, none, some, ◌==◌, Bool-cases,
  inl, inr, arith,
}
use onion_network.Streaming.Behaviour.{
  Behaviour, create_stream, establish, on_swarm_event, dial_failure, connection_closed,
  connection_gone, Error, dial_error, connection_reset,
}
use onion_network.Streaming.Pending.{Apart, same-cases}
use onion_network.Streaming.System.{Link, System, set_link, count, with_behaviour, established}
use onion_network.Streaming.Weights.{weight-create_stream, weight-establish, weight-connection_gone}
use onion_network.Streaming.Kept.{
  create_stream-keeps, connection_gone-keeps, establish-keeps, establish-pending,
}
use onion_network.Streaming.Owed.{
  owed, AllPlain, IsSound, AllOwed-set_link, count_lem, connection_gone-AllPlain,
  create_stream-AllPlain,
}

pub creates-IsSound :
    (p i : ℕ) (s : System)
    → IsSound s
    → IsSound (record s { behaviour = create_stream p i s.behaviour; created = count p s.created })
creates-IsSound p i s (all, (plain, conserved)) = (
  λ q j l e. create_stream-keeps p i s.behaviour q j (owed l) (all q j l e),
  (
    create_stream-AllPlain p i s.behaviour plain,
    λ q.
        omega (arith, count_lem p s.created q, conserved q, weight-create_stream p i s.behaviour q),
  ),
)

-- A connection that is not in the table is none of those that are.
missing-Apart :
    (p i : ℕ) (links : ℕ → ℕ → Option Link) (q j : ℕ) (l : Link)
    → links p i ≡ none
    → links q j ≡ some l
    → ((p ≡ q) × (i ≡ j)) ⊎ Apart p i q j
    → Apart p i q j
missing-Apart p i links q j l missing there (inr apart) = apart
missing-Apart p i links q j l missing there (inl (peers, keys)) = cc

establish-owed :
    (p i : ℕ) (b : Behaviour)
    → ((establish p i b).0).to_request ≡ owed (record { handler = (establish p i b).0; asked = 0 })
unfolding establish
establish-owed p i b = omega arith

establish-AllPlain :
    (p i : ℕ) (b : Behaviour) → AllPlain b.events → AllPlain (((establish p i b).1).events)
unfolding establish
establish-AllPlain p i b plain = plain

pub established-IsSound : (p i : ℕ) (s : System) → IsSound s → IsSound (established p i s)
established-IsSound p i s (all, (plain, conserved)) = (
  AllOwed-set_link p i (some made) s.links ((establish p i s.behaviour).1)
      (λ l e. establish-pending p i s.behaviour ∙ ap some (as_made l e))
      (λ q j l apart e. establish-keeps p i s.behaviour q j apart ∙ all q j l e),
  (
    establish-AllPlain p i s.behaviour plain,
    λ q. omega (arith, conserved q, weight-establish p i s.behaviour q),
  ),
)
  where
    made : Link
    made = record { handler = (establish p i s.behaviour).0; asked = 0 }

    as_made : (l : Link) → some made ≡ some l → ((establish p i s.behaviour).0).to_request ≡ owed l
    as_made l e = owed_made ∙ ap owed (same l e)
      where
        same : (k : Link) → some made ≡ some k → made ≡ k
        same k f = cc

        owed_made : ((establish p i s.behaviour).0).to_request ≡ owed made
        owed_made = establish-owed p i s.behaviour

-- A connection of which nothing is left in the table is gone.
gone-IsSound :
    (p i : ℕ) (e : Error) (links : ℕ → ℕ → Option Link) (s : System)
    → ((q j : ℕ) (l : Link) → links q j ≡ some l → Apart p i q j × (s.links q j ≡ some l))
    → IsSound s
    → IsSound (record s { behaviour = connection_gone p i e s.behaviour; links = links })
gone-IsSound p i e links s kept (all, (plain, conserved)) = (
  λ q j l f.
      connection_gone-keeps p i e s.behaviour q j (owed l) ((kept q j l f).0)
        (all q j l ((kept q j l f).1)),
  (
    connection_gone-AllPlain p i e s.behaviour plain,
    λ q. omega (arith, conserved q, weight-connection_gone p i e s.behaviour q),
  ),
)

pub fails-IsSound :
    (condition_false : Bool) (error p i : ℕ) (s : System)
    → s.links p i ≡ none
    → IsSound s
    → IsSound
        (with_behaviour (on_swarm_event (dial_failure condition_false error p i) s.behaviour) s)
unfolding on_swarm_event
fails-IsSound true error p i s missing sound = sound
fails-IsSound false error p i s missing sound =
    gone-IsSound p i (dial_error error) s.links s
      (λ q j l f. (missing-Apart p i s.links q j l missing f (same-cases p i q j), f)) sound

pub closes-IsSound :
    (p i : ℕ) (s : System)
    → IsSound s
    → IsSound (record s {
      behaviour = on_swarm_event (connection_closed p i) s.behaviour;
      links = set_link p i none s.links;
    })
unfolding on_swarm_event
closes-IsSound p i s sound =
    gone-IsSound p i connection_reset (set_link p i none s.links) s (λ q j l f. kept q j l f) sound
  where
    kept :
        (q j : ℕ) (l : Link)
        → set_link p i none s.links q j ≡ some l
        → Apart p i q j × (s.links q j ≡ some l)
    kept q j l f = elim (Bool-cases ((p == q) && (i == j))) [
      | inl same ↦ absurd (nothing (sym (rw same refl) ∙ f))
      | inr other ↦ (apart (same-cases p i q j) other, sym (rw other refl) ∙ f)
    ]
      where
        nothing : none ≡ some l → ⊥
        nothing e = cc

        apart : ((p ≡ q) × (i ≡ j)) ⊎ Apart p i q j → ((p == q) && (i == j)) ≡ false → Apart p i q j
        apart (inr a) other = a
        apart (inl (peers, keys)) other = ground (arith, peers, keys, other)
