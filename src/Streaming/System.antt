-- ===== src/Streaming/System.antt =====
-- protocols/streaming/src/lib.rs: the behaviour of a node together with the handlers of its
-- connections, as the swarm drives them. The swarm may do what it does in any order: it delivers
-- what is polled, gives a message for a connection that is not there to nobody, and ends with a
-- result, or with the connection, each stream that it was asked for.
use onion_network.Base.{
  ℕ, zero, suc, ◌+◌, Bool, ◌&&◌, Option, none, some, List, [], ◌∷◌, ◌==◌, if◌then◌else◌,
}
use onion_network.Codec.Sum.{Result, ok, err}
use onion_network.Streaming.Behaviour.{
  ToSwarm, dial, generate_event, notify_handler, incoming_stream, outgoing_stream, Behaviour,
  Handler, new_behaviour, create_stream, establish, on_swarm_event, dial_failure, connection_closed,
  on_connection_handler_event, poll, HandlerOut, notify_behaviour, outbound_substream_request,
  poll_handler, on_behaviour_event, ConnectionEvent, fully_negotiated_inbound,
  fully_negotiated_outbound, dial_upgrade_error, on_connection_event,
}

-- `asked` counts the streams that were asked for and are not negotiated yet.
pub record Link : Type 0 where
  pub handler : Handler
  pub asked : ℕ

-- `created` and `delivered` count for each peer the calls of `create_stream` and the
-- `OutgoingStream` events that came out of `poll`.
pub record System : Type 0 where
  pub behaviour : Behaviour
  pub links : ℕ → ℕ → Option Link
  pub created : ℕ → ℕ
  pub delivered : ℕ → ℕ

abbrev pub empty_system : System
empty_system = record {
  behaviour = new_behaviour;
  links = λ peer cid. none;
  created = λ peer. 0;
  delivered = λ peer. 0;
}

pub data Action : Type 0 where
  creates : ℕ → ℕ → Action
  establishes : ℕ → ℕ → Action
  fails : Bool → ℕ → ℕ → ℕ → Action
  closes : ℕ → ℕ → Action
  polls : Action
  handler_polls : ℕ → ℕ → Action
  negotiated : ℕ → ℕ → Result ℕ ℕ → Action
  accepts : ℕ → ℕ → ℕ → Action

abbrev pub set_link : ℕ → ℕ → Option Link → (ℕ → ℕ → Option Link) → ℕ → ℕ → Option Link
set_link p i l links q j = if (p == q) && (i == j) then l else links q j

abbrev pub count : ℕ → (ℕ → ℕ) → ℕ → ℕ
count p f q = if p == q then suc (f q) else f q

-- The streams to a peer that an event of the behaviour settles.
abbrev pub settles : ℕ → ToSwarm → ℕ
settles q (dial peer cid) = 0
settles q (generate_event (incoming_stream peer stream)) = 0
settles q (generate_event (outgoing_stream peer e)) = if peer == q then 1 else 0
settles q (notify_handler peer cid glass) = 0

-- What is polled reaches the owner of the node, or the handler of a connection that is there.
abbrev pub notified : ℕ → Option Link → Option Link
notified glass none = none
notified glass (some l) = some (record l { handler = on_behaviour_event glass l.handler })

abbrev pub deliver : ToSwarm → System → System
deliver (dial peer cid) s = s
deliver (generate_event (incoming_stream peer stream)) s = s
deliver (generate_event (outgoing_stream peer e)) s = record s {
  delivered = count peer s.delivered;
}
deliver (notify_handler peer cid glass) s = record s {
  links = set_link peer cid (notified glass (s.links peer cid)) s.links;
}

abbrev pub with_behaviour : Behaviour → System → System
with_behaviour b s = record s { behaviour = b }

abbrev pub with_link : ℕ → ℕ → Link → System → System
with_link p i l s = record s { links = set_link p i (some l) s.links }

abbrev outcome : Result ℕ ℕ → ConnectionEvent
outcome (ok o) = fully_negotiated_outbound o
outcome (err e) = dial_upgrade_error e

abbrev pub established : ℕ → ℕ → System → System
established p i s =
    let made = establish p i s.behaviour in
    with_link p i (record { handler = made.0; asked = 0 }) (with_behaviour (made.1) s)

abbrev pub hand_out : Option ToSwarm × Behaviour → System → System
hand_out (none, b) s = with_behaviour b s
hand_out (some event, b) s = deliver event (with_behaviour b s)

abbrev pub polled : System → System
polled s = hand_out (poll s.behaviour) s

abbrev pub informed : ℕ → ℕ → Option Behaviour → Link → System → Option System
informed p i none l s = none
informed p i (some b) l s = some (with_link p i l (with_behaviour b s))

abbrev pub handler_out : ℕ → ℕ → Option HandlerOut → Link → System → Option System
handler_out p i none l s = some (with_link p i l s)
handler_out p i (some outbound_substream_request) l s =
    some (with_link p i (record l { asked = l.asked + 1 }) s)
handler_out p i (some (notify_behaviour e)) l s =
    informed p i (on_connection_handler_event p i e s.behaviour) l s

abbrev pub handler_polled : ℕ → ℕ → Link → System → Option System
handler_polled p i l s =
    let out = poll_handler l.handler in handler_out p i (out.0) (record l { handler = out.1 }) s

abbrev pub settled : ℕ → ℕ → Result ℕ ℕ → Link → System → System
settled p i r l s = elim l.asked [
  | zero ↦ s
  | suc asked ↦
      with_link p i (record { handler = on_connection_event (outcome r) l.handler; asked = asked })
        s
]

-- `none` is a panic; what the swarm does not do changes nothing.
unfoldable pub step : Action → System → Option System
step (creates p i) s =
    some (record s { behaviour = create_stream p i s.behaviour; created = count p s.created })
step (establishes p i) s = elim (s.links p i) [ none ↦ some (established p i s) | some l ↦ some s ]
step (fails condition_false error p i) s = elim (s.links p i) [
  | none ↦
      some (with_behaviour (on_swarm_event (dial_failure condition_false error p i) s.behaviour) s)
  | some l ↦ some s
]
step (closes p i) s = some (record s {
  behaviour = on_swarm_event (connection_closed p i) s.behaviour;
  links = set_link p i none s.links;
})
step polls s = some (polled s)
step (handler_polls p i) s = elim (s.links p i) [ none ↦ some s | some l ↦ handler_polled p i l s ]
step (negotiated p i r) s = elim (s.links p i) [ none ↦ some s | some l ↦ some (settled p i r l s) ]
step (accepts p i stream) s = elim (s.links p i) [
  | none ↦ some s
  | some l ↦ some (
      with_link p i
        (record l { handler = on_connection_event (fully_negotiated_inbound stream) l.handler }) s)
]

unfoldable pub run : List Action → System → Option System
run [] s = some s
run (a ∷ actions) s = elim (step a s) [ none ↦ none | some after ↦ run actions after ]
