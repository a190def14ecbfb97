-- ===== src/Streaming/Runs.antt =====
-- protocols/streaming/src/lib.rs: whatever the swarm does, no call panics and no request is lost.
use onion_network.Base.{
  ℕ, ◌+◌, ◌≡◌, refl, sym, Option, none, some, List, [], ◌∷◌, Option-cases, inl, inr,
}
use mathlib.Core.Path.{subst}
use onion_network.Streaming.Requests.{requests}
use onion_network.Streaming.System.{
  Link, System, Action, creates, establishes, fails, closes, polls, handler_polls, negotiated,
  accepts, empty_system, step, run,
}
use onion_network.Streaming.Weights.{queued}
use onion_network.Streaming.Owed.{AllOwed, Conserved, IsSound}
use onion_network.Streaming.Steps.{
  creates-IsSound, established-IsSound, fails-IsSound, closes-IsSound,
}
use onion_network.Streaming.Polled.{polled-IsSound}
use onion_network.Streaming.Answered.{
  EndsSound, handler_polled-EndsSound, settled-IsSound, accepted-IsSound,
}

step-EndsSound : (a : Action) (s : System) → IsSound s → EndsSound (step a s)
unfolding step
step-EndsSound (creates p i) s sound = creates-IsSound p i s sound
step-EndsSound (establishes p i) s sound = elim (Option-cases (s.links p i)) [
  | inl missing ↦ rw (step, missing) (established-IsSound p i s sound)
  | inr (l, there) ↦ rw (step, there) sound
]
step-EndsSound (fails condition_false error p i) s sound = elim (Option-cases (s.links p i)) [
  | inl missing ↦ rw (step, missing) (fails-IsSound condition_false error p i s missing sound)
  | inr (l, there) ↦ rw (step, there) sound
]
step-EndsSound (closes p i) s sound = closes-IsSound p i s sound
step-EndsSound polls s sound = polled-IsSound s sound
step-EndsSound (handler_polls p i) s sound = elim (Option-cases (s.links p i)) [
  | inl missing ↦ rw (step, missing) sound
  | inr (l, there) ↦ rw (step, there) (handler_polled-EndsSound p i l s there sound)
]
step-EndsSound (negotiated p i r) s sound = elim (Option-cases (s.links p i)) [
  | inl missing ↦ rw (step, missing) sound
  | inr (l, there) ↦ rw (step, there) (settled-IsSound p i l s there sound r)
]
step-EndsSound (accepts p i stream) s sound = elim (Option-cases (s.links p i)) [
  | inl missing ↦ rw (step, missing) sound
  | inr (l, there) ↦ rw (step, there) (accepted-IsSound p i l s there sound stream)
]

run-EndsSound : (actions : List Action) (s : System) → IsSound s → EndsSound (run actions s)
unfolding run
run-EndsSound [] s sound = sound
run-EndsSound (a ∷ actions) s sound =
    go (step a s) refl (step-EndsSound a s sound) (λ after. run-EndsSound actions after)
  where
    go :
        (o : Option System)
        → step a s ≡ o
        → EndsSound o
        → ((after : System) → IsSound after → EndsSound (run actions after))
        → EndsSound (run (a ∷ actions) s)
    go none e ends later = absurd ends
    go (some after) e ends later =
        subst (λ o. EndsSound (elim o [ none ↦ none | some x ↦ run actions x ])) (sym e)
          (later after ends)

empty_system-IsSound : IsSound empty_system
empty_system-IsSound = (λ q j l e. absurd (nothing l e), (tt, λ q. refl))
  where
    nothing : (l : Link) → none ≡ some l → ⊥
    nothing l e = cc

-- Whatever the swarm does, in whatever order, no call panics. Afterwards each stream to each peer
-- that `create_stream` was called for has had one event come out of `poll`, waits in one of the
-- events that are queued, or is a request, pending or new, of a connection of that peer. What is
-- pending on a connection that is there is what its handler is still to ask for, has asked for and
-- has the results of.
pub run-conserved :
    (actions : List Action)
    → (s : System) × (run actions empty_system ≡ some s)
      × AllOwed s.links s.behaviour
      × ((peer : ℕ)
          → s.created peer
            ≡ s.delivered peer + (requests peer s.behaviour + queued peer (s.behaviour).events))
run-conserved actions =
    go (run actions empty_system) refl (run-EndsSound actions empty_system empty_system-IsSound)
  where
    go :
        (o : Option System)
        → run actions empty_system ≡ o
        → EndsSound o
        → (s : System) × (run actions empty_system ≡ some s)
          × AllOwed s.links s.behaviour
          × Conserved s
    go none e ends = absurd ends
    go (some s) e (all, (plain, conserved)) = (s, e, all, conserved)
