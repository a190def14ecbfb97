-- ===== src/Streaming/Weights.antt =====
-- protocols/streaming/src/lib.rs: no operation of `Behaviour` loses a request: it stands for a
-- connection, or an event that is queued or comes out settles it.
use onion_network.Base.{
  ℕ, zero, suc, ◌+◌, ◌≡◌, ◌≢◌, refl, ap, ◌∙◌, false, Option, none, some, List, [], ◌∷◌, ◌==◌,
  ==_refl, ==_iff, if◌then◌else◌, Bool-cases, Option-cases, inl, inr, arith,
}
use onion_network.Base.Entries.{insert_key, remove_key, weigh_found, weigh-remove_key}
use mathlib.Core.Path.{subst}
use onion_network.Codec.Sum.{err}
use onion_network.Streaming.Behaviour.{
  Connection, total_requests, no_requests, Error, ToSwarm, dial, generate_event, outgoing_stream,
  Behaviour, group_of, find_connection, set_group, set_connection, more_requests, create_stream,
  all_pending, conn_or_default, push_event, establish, push_errors, hand_on, connection_gone,
}
use onion_network.Streaming.Requests.{
  group_total, requests, found_total, requests-set_group, requests-set_connection,
  requests-remove_key, requests-set_group_other, requests-remove_key_other,
}
use onion_network.Streaming.System.{settles}

abbrev pub queued : ℕ → List ToSwarm → ℕ
queued q [] = 0
queued q (e ∷ events) = settles q e + queued q events

-- The streams to a peer that the behaviour answers for.
abbrev pub weight : ℕ → Behaviour → ℕ
weight q b = requests q b + queued q b.events

abbrev pub one_of : ℕ → ℕ → ℕ
one_of p q = if p == q then 1 else 0

-- An equation for the peer that an operation is about and one for the others make one for all.
pub for_each : (p : ℕ) (T : ℕ → Type 0) → T p → ((q : ℕ) → p ≢ q → T q) → (q : ℕ) → T q
for_each p T here there q = elim (Bool-cases (p == q)) [
  | inl same ↦ subst T ((==_iff p q).0 same) here
  | inr other ↦ there q (ground (arith, other))
]

pub not_same : (p q : ℕ) → p ≢ q → (p == q) ≡ false
not_same p q apart = ground (arith, apart)

requests-more :
    (p i : ℕ) (c : Connection) (rest : List (ℕ × Connection)) (n : ℕ) (b : Behaviour)
    → requests p (set_group p ((i, more_requests n c) ∷ rest) b) + group_total (group_of p b)
      ≡ requests p b + group_total ((i, c) ∷ rest) + n
requests-more p i c rest n b = omega (arith, requests-set_group p b ((i, more_requests n c) ∷ rest))

weight-create_stream_here :
    (p i : ℕ) (b : Behaviour) → weight p (create_stream p i b) ≡ weight p b + 1
unfolding create_stream
weight-create_stream_here p i b = go (group_of p b) refl
  where
    go :
        (g : List (ℕ × Connection))
        → group_of p b ≡ g
        → weight p (create_stream p i b) ≡ weight p b + 1
    go [] e =
        rw (create_stream, e)
          (omega (arith, requests-more p i no_requests [] 1 b, ap group_total e))
    go ((k, c) ∷ rest) e =
        rw (create_stream, e) (omega (arith, requests-more p k c rest 1 b, ap group_total e))

weight-create_stream_there :
    (p i : ℕ) (b : Behaviour) (q : ℕ) → p ≢ q → weight q (create_stream p i b) ≡ weight q b
unfolding create_stream
weight-create_stream_there p i b q apart =
    elim (group_of p b)
      as (λ g.
        weight q (elim g [
          | (k, conn) ∷ rest ↦ record (set_group p ((k, more_requests 1 conn) ∷ rest) b) {
            waker = false;
          }
          | [] ↦
              record (push_event (dial p i)
                (set_group p ((i, more_requests 1 no_requests) ∷ []) b)) { waker = false }
        ])
        ≡ weight q b) [
          | [] ↦
              omega (
                arith,
                requests-set_group_other p b q ((i, more_requests 1 no_requests) ∷ []) apart,
              )
          | (k, c) ∷ rest ↦
              omega (arith, requests-set_group_other p b q ((k, more_requests 1 c) ∷ rest) apart)
        ]

-- `create_stream` stands for one more stream to its peer.
pub weight-create_stream :
    (p i : ℕ) (b : Behaviour) (q : ℕ)
    → weight q (create_stream p i b) ≡ weight q b + (if p == q then 1 else 0)
weight-create_stream p i b =
    for_each p (λ q. weight q (create_stream p i b) ≡ weight q b + one_of p q)
      (rw (==_refl p) (weight-create_stream_here p i b))
      (λ q apart. rw (not_same p q apart) (omega (arith, weight-create_stream_there p i b q apart)))

pub requests-set_connection_other :
    (p i : ℕ) (c : Connection) (b : Behaviour) (q : ℕ)
    → p ≢ q
    → requests q (set_connection p i c b) ≡ requests q b
requests-set_connection_other p i c b q apart =
    requests-set_group_other p b q (insert_key i c (group_of p b)) apart

pub weight-establish :
    (p i : ℕ) (b : Behaviour) (q : ℕ) → weight q ((establish p i b).1) ≡ weight q b
unfolding establish
weight-establish p i b =
    for_each p (λ q. weight q ((establish p i b).1) ≡ weight q b) (go (find_connection p i b) refl)
      (λ q apart.
        ap (λ n. n + queued q b.events)
          (requests-set_connection_other p i (all_pending (conn_or_default (find_connection p i b)))
            b q apart))
  where
    go :
        (o : Option Connection)
        → find_connection p i b ≡ o
        → weight p (set_connection p i (all_pending (conn_or_default (find_connection p i b))) b)
          ≡ weight p b
    go none e =
        rw e
          (omega (arith, ap found_total e, requests-set_connection p b i (all_pending no_requests)))
    go (some c) e =
        rw e (omega (arith, ap found_total e, requests-set_connection p b i (all_pending c)))

queued-push_errors_here :
    (n p : ℕ) (e : Error) (events : List ToSwarm)
    → queued p (push_errors n p e events) ≡ queued p events + n
unfolding push_errors
queued-push_errors_here zero p e events = omega arith
queued-push_errors_here (suc n) p e events = omega (
  arith,
  queued-push_errors_here n p e (generate_event (outgoing_stream p (err e)) ∷ events),
  once,
)
  where
    once : one_of p p ≡ 1
    once = rw (==_refl p) refl

queued-push_errors_there :
    (n p : ℕ) (e : Error) (events : List ToSwarm) (q : ℕ)
    → p ≢ q
    → queued q (push_errors n p e events) ≡ queued q events
unfolding push_errors
queued-push_errors_there zero p e events q apart = refl
queued-push_errors_there (suc n) p e events q apart =
    queued-push_errors_there n p e (generate_event (outgoing_stream p (err e)) ∷ events) q apart
    ∙ rw (not_same p q apart) (omega arith)

-- The group without the connection that is gone, and the requests of that one.
weight-hand_on_here :
    (total p : ℕ) (e : Error) (g : List (ℕ × Connection)) (b : Behaviour)
    → group_total g + total ≡ group_total (group_of p b)
    → weight p (hand_on total p e g b) ≡ weight p b
unfolding hand_on
weight-hand_on_here total p e [] b sum = omega (
  arith,
  sum,
  requests-remove_key p b (hand_on total p e [] b) refl,
  queued-push_errors_here total p e b.events,
)
weight-hand_on_here total p e ((k, c) ∷ rest) b sum =
    omega (arith, sum, requests-more p k c rest total b)

weight-hand_on_there :
    (total p : ℕ) (e : Error) (g : List (ℕ × Connection)) (b : Behaviour) (q : ℕ)
    → p ≢ q
    → weight q (hand_on total p e g b) ≡ weight q b
unfolding hand_on
weight-hand_on_there total p e [] b q apart = omega (
  arith,
  requests-remove_key_other p b q (hand_on total p e [] b) refl apart,
  queued-push_errors_there total p e b.events q apart,
)
weight-hand_on_there total p e ((k, c) ∷ rest) b q apart =
    omega (arith, requests-set_group_other p b q ((k, more_requests total c) ∷ rest) apart)

pub weight-connection_gone :
    (p i : ℕ) (e : Error) (b : Behaviour) (q : ℕ) → weight q (connection_gone p i e b) ≡ weight q b
unfolding connection_gone
weight-connection_gone p i e b q = elim (Option-cases (find_connection p i b)) [
  | inl missing ↦ rw (connection_gone, missing) refl
  | inr (c, found) ↦
      rw (connection_gone, found)
        (for_each p
          (λ r.
            weight r (hand_on (total_requests c) p e (remove_key i (group_of p b)) b) ≡ weight r b)
          (weight-hand_on_here (total_requests c) p e (remove_key i (group_of p b)) b
            (left c found))
          (weight-hand_on_there (total_requests c) p e (remove_key i (group_of p b)) b) q)
]
  where
    left :
        (c : Connection)
        → find_connection p i b ≡ some c
        → group_total (remove_key i (group_of p b)) + total_requests c ≡ group_total (group_of p b)
    left c found =
        omega
          (arith, weight_found c found, weigh-remove_key (λ k d. total_requests d) i (group_of p b))
      where
        weight_found :
            (d : Connection)
            → find_connection p i b ≡ some d
            → weigh_found (λ k d. total_requests d) i (find_connection p i b) ≡ total_requests d
        weight_found d e = ap (weigh_found (λ k d. total_requests d) i) e
