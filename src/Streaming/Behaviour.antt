-- ===== src/Streaming/Behaviour.antt =====
-- protocols/streaming/src/lib.rs: `Behaviour`, which counts the requests of each connection, and
-- `Handler`, which makes them. Streams are numbers, counts are unbounded, a hash map is the list of
-- its entries, and `none` is a subtraction that panics.
use onion_network.Base.{
  ℕ, zero, suc, ◌+◌, ◌-◌, Bool, true, false, Option, none, some, List, [], ◌∷◌, ◌++◌, map, any, ltb,
  if◌then◌else◌,
}
use onion_network.Base.Entries.{find_key, insert_key, remove_key}
use onion_network.Codec.Sum.{Result, ok, err}

pub record Connection : Type 0 where
  pub pending_requests : ℕ
  pub new_requests : ℕ

abbrev pub total_requests : Connection → ℕ
total_requests c = c.pending_requests + c.new_requests

abbrev pub no_requests : Connection
no_requests = record { pending_requests = 0; new_requests = 0 }

pub data Error : Type 0 where
  dial_error : ℕ → Error
  connection_reset : Error
  upgrade_error : ℕ → Error

pub data Event : Type 0 where
  incoming_stream : ℕ → ℕ → Event
  outgoing_stream : ℕ → Result ℕ Error → Event

pub data ToSwarm : Type 0 where
  dial : ℕ → ℕ → ToSwarm
  generate_event : Event → ToSwarm
  notify_handler : ℕ → ℕ → ℕ → ToSwarm

pub data HEvent : Type 0 where
  incoming : ℕ → HEvent
  outgoing : Result ℕ Error → HEvent

-- The head of `events` is what was pushed last; `waker` tells whether one is stored.
pub record Behaviour : Type 0 where
  pub connections : List (ℕ × List (ℕ × Connection))
  pub events : List ToSwarm
  pub waker : Bool

pub record Handler : Type 0 where
  pub to_request : ℕ
  pub stream : List HEvent
  pub waker : Bool

abbrev pub new_behaviour : Behaviour
new_behaviour = record { connections = []; events = []; waker = false }

abbrev pub new_handler : ℕ → Handler
new_handler to_request = record { to_request = to_request; stream = []; waker = false }

-- `entry(peer).conn_or_default()`
abbrev pub group_of : ℕ → Behaviour → List (ℕ × Connection)
group_of peer b = elim (find_key peer b.connections) [ none ↦ [] | some group ↦ group ]

abbrev pub find_connection : ℕ → ℕ → Behaviour → Option Connection
find_connection peer cid b = find_key cid (group_of peer b)

abbrev pub set_group : ℕ → List (ℕ × Connection) → Behaviour → Behaviour
set_group peer group b = record b { connections = insert_key peer group b.connections }

abbrev pub set_connection : ℕ → ℕ → Connection → Behaviour → Behaviour
set_connection peer cid c b = set_group peer (insert_key cid c (group_of peer b)) b

abbrev pub push_event : ToSwarm → Behaviour → Behaviour
push_event e b = record b { events = e ∷ b.events }

unfoldable pub is_resolving_stream_for : ℕ → Behaviour → Bool
is_resolving_stream_for peer b = elim (find_key peer b.connections) [
  | none ↦ false
  | some group ↦ any (λ e. ltb 0 (total_requests (e.1))) group
]

abbrev pub more_requests : ℕ → Connection → Connection
more_requests n c = record c { new_requests = c.new_requests + n }

-- `cid` is the number of the connection that is dialled, which is a new one.
unfoldable pub create_stream : ℕ → ℕ → Behaviour → Behaviour
create_stream peer cid b = elim (group_of peer b) [
  | (k, conn) ∷ rest ↦ record (set_group peer ((k, more_requests 1 conn) ∷ rest) b) {
    waker = false;
  }
  | [] ↦
      record (push_event (dial peer cid)
        (set_group peer ((cid, more_requests 1 no_requests) ∷ []) b)) { waker = false }
]

-- What was new is pending.
abbrev pub all_pending : Connection → Connection
all_pending c = record { pending_requests = c.pending_requests + c.new_requests; new_requests = 0 }

abbrev pub conn_or_default : Option Connection → Connection
conn_or_default none = no_requests
conn_or_default (some c) = c

-- `Behaviour::new_handler`
unfoldable pub establish : ℕ → ℕ → Behaviour → Handler × Behaviour
establish peer cid b =
    let conn = all_pending (conn_or_default (find_connection peer cid b)) in
    (new_handler conn.pending_requests, set_connection peer cid conn b)

unfoldable pub push_errors : ℕ → ℕ → Error → List ToSwarm → List ToSwarm
push_errors zero peer e events = events
push_errors (suc n) peer e events =
    push_errors n peer e (generate_event (outgoing_stream peer (err e)) ∷ events)

-- The requests of a connection that is gone go to another one of the peer, or fail.
unfoldable pub hand_on : ℕ → ℕ → Error → List (ℕ × Connection) → Behaviour → Behaviour
hand_on total peer e [] b = record b {
  connections = remove_key peer b.connections;
  events = push_errors total peer e b.events;
}
hand_on total peer e ((k, other) ∷ rest) b =
    set_group peer ((k, more_requests total other) ∷ rest) b

unfoldable pub connection_gone : ℕ → ℕ → Error → Behaviour → Behaviour
connection_gone peer cid e b = elim (find_connection peer cid b) [
  | none ↦ b
  | some conn ↦ hand_on (total_requests conn) peer e (remove_key cid (group_of peer b)) b
]

-- `on_swarm_event`: the condition that is false is that the peer is not connected or dialled yet.
pub data FromSwarm : Type 0 where
  dial_failure : (condition_false : Bool) → ℕ → ℕ → ℕ → FromSwarm
  connection_closed : ℕ → ℕ → FromSwarm

unfoldable pub on_swarm_event : FromSwarm → Behaviour → Behaviour
on_swarm_event (dial_failure condition_false error peer cid) b =
    if condition_false then b else connection_gone peer cid (dial_error error) b
on_swarm_event (connection_closed peer cid) b = connection_gone peer cid connection_reset b

-- The result of one request of a connection has come.
unfoldable pub answered : ℕ → ℕ → Behaviour → Option Behaviour
answered peer cid b = elim (find_connection peer cid b) [
  | none ↦ some b
  | some conn ↦
      if ltb 0 conn.pending_requests
      then some
          (set_connection peer cid (record conn { pending_requests = conn.pending_requests - 1 }) b)
      else none
]

unfoldable pub on_connection_handler_event : ℕ → ℕ → HEvent → Behaviour → Option Behaviour
on_connection_handler_event peer cid (incoming stream) b =
    some (push_event (generate_event (incoming_stream peer stream)) b)
on_connection_handler_event peer cid (outgoing e) b = elim (answered peer cid b) [
  | none ↦ none
  | some after ↦ some (push_event (generate_event (outgoing_stream peer e)) after)
]

-- The keys of all connections, in the order of iteration.
abbrev pub keys_of : ℕ → List (ℕ × Connection) → List (ℕ × ℕ)
keys_of peer group = map (λ e. (peer, e.0)) group

abbrev pub all_keys : List (ℕ × List (ℕ × Connection)) → List (ℕ × ℕ)
all_keys [] = []
all_keys ((peer, group) ∷ m) = keys_of peer group ++ all_keys m

unfoldable pub find_new : List (ℕ × ℕ) → Behaviour → Option (ℕ × ℕ × Connection)
find_new [] b = none
find_new ((peer, cid) ∷ keys) b =
    let rest = find_new keys b in
    elim (find_connection peer cid b) [
      | none ↦ rest
      | some c ↦ if ltb 0 c.new_requests then some (peer, cid, c) else rest
    ]

unfoldable pub poll : Behaviour → Option ToSwarm × Behaviour
poll b = elim (find_new (all_keys b.connections) b) [
  | some (peer, cid, conn) ↦ (
    some (notify_handler peer cid conn.new_requests),
    set_connection peer cid (all_pending conn) b,
  )
  | none ↦ elim b.events [
    | event ∷ events ↦ (some event, record b { events = events })
    | [] ↦ (none, record b { waker = true })
  ]
]

-- What the handler of a connection does when it is polled.
pub data HandlerOut : Type 0 where
  notify_behaviour : HEvent → HandlerOut
  outbound_substream_request : HandlerOut

unfoldable pub poll_handler : Handler → Option HandlerOut × Handler
poll_handler h = elim h.stream [
  | stream ∷ streams ↦ (some (notify_behaviour stream), record h { stream = streams })
  | [] ↦ elim h.to_request [
    | suc next_requested ↦
        (some outbound_substream_request, record h { to_request = next_requested })
    | zero ↦ (none, record h { waker = true })
  ]
]

unfoldable pub on_behaviour_event : ℕ → Handler → Handler
on_behaviour_event glass h = record h { to_request = h.to_request + glass; waker = false }

-- The events of a connection that the handler takes note of.
pub data ConnectionEvent : Type 0 where
  fully_negotiated_inbound : ℕ → ConnectionEvent
  fully_negotiated_outbound : ℕ → ConnectionEvent
  dial_upgrade_error : ℕ → ConnectionEvent
  other_event : ConnectionEvent

unfoldable pub on_connection_event : ConnectionEvent → Handler → Handler
on_connection_event (fully_negotiated_inbound i) h = record h {
  stream = incoming i ∷ h.stream;
  waker = false;
}
on_connection_event (fully_negotiated_outbound o) h = record h {
  stream = outgoing (ok o) ∷ h.stream;
  waker = false;
}
on_connection_event (dial_upgrade_error e) h = record h {
  stream = outgoing (err (upgrade_error e)) ∷ h.stream;
  waker = false;
}
on_connection_event other_event h = h
