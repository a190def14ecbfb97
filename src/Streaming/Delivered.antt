-- ===== src/Streaming/Delivered.antt =====
-- protocols/streaming/src/lib.rs: what comes out of `poll`, and what a result of a handler does.
use onion_network.Base.{
  ℕ, ◌+◌, ◌-◌, ◌<◌, ◌≡◌, refl, ap, true, Option, none, some, List, [], ◌∷◌, ltb, ==_refl,
  Bool-cases, Option-cases, inl, inr, arith,
}
use mathlib.Core.Path.{subst}
use onion_network.Codec.Sum.{Result}
use onion_network.Streaming.Behaviour.{
  Connection, total_requests, Error, ToSwarm, generate_event, outgoing_stream, Behaviour,
  find_connection, set_connection, push_event, all_pending, answered, outgoing,
  on_connection_handler_event, all_keys, find_new, poll,
}
use onion_network.Streaming.Requests.{requests, found_total, requests-set_connection}
use onion_network.Streaming.System.{settles}
use onion_network.Streaming.Weights.{
  queued, weight, for_each, not_same, requests-set_connection_other,
}

abbrev pub settles_out : ℕ → Option ToSwarm → ℕ
settles_out q none = 0
settles_out q (some e) = settles q e

-- What a search finds is there.
abbrev pub IsThere : Behaviour → Option (ℕ × ℕ × Connection) → Type 0
IsThere b none = Unit
IsThere b (some (p, i, c)) = find_connection p i b ≡ some c

pub find_new-IsThere : (keys : List (ℕ × ℕ)) (b : Behaviour) → IsThere b (find_new keys b)
unfolding find_new
find_new-IsThere [] b = tt
find_new-IsThere ((p, i) ∷ keys) b = elim (Option-cases (find_connection p i b)) [
  | inl missing ↦ rw (find_new, missing) (find_new-IsThere keys b)
  | inr (c, found) ↦ elim (Bool-cases (ltb 0 c.new_requests)) [
    | inl some_new ↦ rw (find_new, found, some_new) found
    | inr none_new ↦ rw (find_new, found, none_new) (find_new-IsThere keys b)
  ]
]

-- A write that keeps the number of the requests of a connection keeps that of each peer.
requests-set_connection_same :
    (p i : ℕ) (c d : Connection) (b : Behaviour)
    → find_connection p i b ≡ some c
    → total_requests d ≡ total_requests c
    → (q : ℕ) → requests q (set_connection p i d b) ≡ requests q b
requests-set_connection_same p i c d b found same =
    for_each p (λ q. requests q (set_connection p i d b) ≡ requests q b)
      (omega (arith, requests-set_connection p b i d, ap found_total found, same))
      (requests-set_connection_other p i d b)

pub weight-poll :
    (b : Behaviour) (q : ℕ) → weight q ((poll b).1) + settles_out q ((poll b).0) ≡ weight q b
unfolding poll
weight-poll b q = go (find_new (all_keys b.connections) b) refl
  where
    outs : (events : List ToSwarm) → b.events ≡ events → Type 0
    outs events e = weight q ((poll b).1) + settles_out q ((poll b).0) ≡ weight q b

    queue :
        find_new (all_keys b.connections) b ≡ none
        → (events : List ToSwarm) → (e : b.events ≡ events) → outs events e
    queue nothing [] e = rw (poll, nothing, e) (omega (arith, ap (queued q) e))
    queue nothing (event ∷ events) e = rw (poll, nothing, e) (omega (arith, ap (queued q) e))

    go :
        (o : Option (ℕ × ℕ × Connection))
        → find_new (all_keys b.connections) b ≡ o
        → weight q ((poll b).1) + settles_out q ((poll b).0) ≡ weight q b
    go none e = queue e b.events refl
    go (some (p, i, c)) e =
        rw (poll, e)
          (omega (
            arith,
            requests-set_connection_same p i c (all_pending c) b
                (subst (IsThere b) e (find_new-IsThere (all_keys b.connections) b)) (omega arith) q,
          ))

pub weight-notified :
    (p i : ℕ) (c : Connection) (b : Behaviour)
    → find_connection p i b ≡ some c
    → (q : ℕ) → weight q (set_connection p i (all_pending c) b) ≡ weight q b
weight-notified p i c b found q =
    omega (arith, requests-set_connection_same p i c (all_pending c) b found (omega arith) q)

-- A connection for which one request less is pending.
abbrev pub one_answered : Connection → Connection
one_answered c = record c { pending_requests = c.pending_requests - 1 }

abbrev pub answering : ℕ → ℕ → Result ℕ Error → Connection → Behaviour → Behaviour
answering p i e c b =
    push_event (generate_event (outgoing_stream p e)) (set_connection p i (one_answered c) b)

pub outgoing-answering :
    (p i : ℕ) (e : Result ℕ Error) (c : Connection) (b : Behaviour)
    → find_connection p i b ≡ some c
    → 0 < c.pending_requests
    → on_connection_handler_event p i (outgoing e) b ≡ some (answering p i e c b)
unfolding on_connection_handler_event answered
outgoing-answering p i e c b found pending =
    rw (on_connection_handler_event, answered, found, left) refl
  where
    left : ltb 0 c.pending_requests ≡ true
    left = ground (arith, pending)

pub weight-answering :
    (p i : ℕ) (e : Result ℕ Error) (c : Connection) (b : Behaviour)
    → find_connection p i b ≡ some c
    → 0 < c.pending_requests
    → (q : ℕ) → weight q (answering p i e c b) ≡ weight q b
weight-answering p i e c b found pending =
    for_each p (λ q. weight q (answering p i e c b) ≡ weight q b)
      (rw (==_refl p) (
        omega
          (arith, pending, ap found_total found, requests-set_connection p b i (one_answered c))))
      (λ q apart.
        rw (not_same p q apart)
          (omega (arith, requests-set_connection_other p i (one_answered c) b q apart)))
