-- ===== src/Streaming/Examples.antt =====
-- protocols/streaming/src/lib.rs: runs of a node.
use onion_network.Base.{ℕ, ◌+◌, ◌≡◌, refl, Bool, true, false, Option, none, some, List, [], ◌∷◌}
use onion_network.Codec.Sum.{ok}
use onion_network.Streaming.Behaviour.{
  create_stream, establish, on_swarm_event, hand_on, connection_gone, push_errors, answered,
  on_connection_handler_event, find_new, poll, poll_handler, on_behaviour_event,
  on_connection_event, is_resolving_stream_for,
}
use onion_network.Streaming.Requests.{requests}
use onion_network.Streaming.System.{
  System, Action, creates, establishes, fails, closes, polls, handler_polls, negotiated,
  empty_system, step, run,
}
use onion_network.Streaming.Weights.{queued}
use onion_network.Streaming.Owed.{AllOwed}
use onion_network.Streaming.Runs.{run-conserved}

-- What there is to see of a run: the events delivered for peer 1, the requests left and the events
-- queued for it, and whether it is still resolving.
abbrev seen : Option System → Option (ℕ × ℕ × ℕ × Bool)
seen none = none
seen (some s) = some (
  s.delivered 1,
  requests 1 s.behaviour,
  queued 1 (s.behaviour).events,
  is_resolving_stream_for 1 s.behaviour,
)

-- A stream is dialled for, asked for twice over, and one of the two negotiated.
abbrev dialled : List Action
dialled =
    creates 1 7
    ∷ polls
    ∷ polls
    ∷ establishes 1 7
    ∷ creates 1 8
    ∷ polls
    ∷ handler_polls 1 7
    ∷ handler_polls 1 7
    ∷ negotiated 1 7 (ok 5)
    ∷ handler_polls 1 7
    ∷ polls
    ∷ []

dialled_ends : seen (run dialled empty_system) ≡ some (1, 1, 0, true)
unfolding run step create_stream establish poll find_new poll_handler on_behaviour_event
    on_connection_event on_connection_handler_event answered is_resolving_stream_for
dialled_ends = refl

abbrev whole : List Action
whole =
    creates 1 7
    ∷ establishes 1 7
    ∷ establishes 1 9
    ∷ creates 1 8
    ∷ closes 1 7
    ∷ polls
    ∷ closes 1 9
    ∷ polls
    ∷ []

whole_ends : seen (run whole empty_system) ≡ some (1, 0, 1, false)
unfolding run step create_stream establish poll find_new poll_handler on_behaviour_event
    on_connection_event on_connection_handler_event answered is_resolving_stream_for on_swarm_event
    connection_gone hand_on push_errors
whole_ends = refl

-- A dial that is refused since the peer is dialled already leaves its request with a connection
-- that never is: the one that comes does not make it.
abbrev refused : List Action
refused =
    creates 1 7
    ∷ polls
    ∷ polls
    ∷ fails true 0 1 7
    ∷ establishes 1 9
    ∷ handler_polls 1 9
    ∷ polls
    ∷ handler_polls 1 9
    ∷ polls
    ∷ handler_polls 1 9
    ∷ polls
    ∷ []

refused_ends : seen (run refused empty_system) ≡ some (0, 1, 0, true)
unfolding run step create_stream establish poll find_new poll_handler on_behaviour_event
    on_connection_event on_connection_handler_event answered is_resolving_stream_for on_swarm_event
refused_ends = refl

run-conserved_example :
    (s : System) × (run dialled empty_system ≡ some s)
    × AllOwed s.links s.behaviour
    × ((peer : ℕ)
        → s.created peer
          ≡ s.delivered peer + (requests peer s.behaviour + queued peer (s.behaviour).events))
run-conserved_example = run-conserved dialled
