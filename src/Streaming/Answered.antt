-- ===== src/Streaming/Answered.antt =====
-- protocols/streaming/src/lib.rs: what the handlers of the connections do.
use onion_network.Base.{
  ℕ, zero, suc, ◌+◌, ◌-◌, ◌<◌, ◌≡◌, refl, sym, ap, ◌∙◌, true, Option, none, some, List, [], ◌∷◌,
  arith,
}
use mathlib.Core.Path.{subst}
use mathlib.Core.Option.{some-injective}
use onion_network.Codec.Sum.{Result, ok, err}
use onion_network.Streaming.Behaviour.{
  generate_event, incoming_stream, push_event, Behaviour, Error, Connection, Handler,
  on_connection_handler_event, poll_handler, notify_behaviour, outbound_substream_request,
  HandlerOut, on_connection_event, HEvent, incoming, outgoing, find_connection,
  fully_negotiated_inbound,
}
use onion_network.Streaming.Pending.{
  pending_of, pending_at, pending_at-set_connection, pending_at-set_connection_other,
}
use onion_network.Streaming.System.{
  Link, System, with_behaviour, with_link, handler_out, informed, handler_polled, settled,
}
use onion_network.Streaming.Delivered.{
  one_answered, answering, outgoing-answering, weight-answering,
}
use onion_network.Streaming.Owed.{results, owed, IsSound, AllOwed-set_link, IsSound-with_link}

-- There is a state after a call, and it is sound.
abbrev pub EndsSound : Option System → Type 0
EndsSound none = ⊥
EndsSound (some s) = IsSound s

abbrev AtLink : ℕ → ℕ → Behaviour → ℕ → Type 0
AtLink p i b n = (c : Connection) × (find_connection p i b ≡ some c) × (c.pending_requests ≡ n)

pending_at-find_connection :
    (p i n : ℕ) (b : Behaviour) → pending_at p i b ≡ some n → AtLink p i b n
pending_at-find_connection p i n b there = go (find_connection p i b) refl
  where
    go : (o : Option Connection) → find_connection p i b ≡ o → AtLink p i b n
    go none e = absurd (nothing (sym (ap pending_of e) ∙ there))
      where
        nothing : none ≡ some n → ⊥
        nothing f = cc
    go (some c) e = (c, e, some-injective _ _ (sym (ap pending_of e) ∙ there))

-- A handler hands over the result of a stream.
answering-IsSound :
    (p i : ℕ) (r : Result ℕ Error) (c : Connection) (l after : Link) (s : System)
    → s.links p i ≡ some l
    → find_connection p i s.behaviour ≡ some c
    → c.pending_requests ≡ owed l
    → owed l ≡ suc (owed after)
    → IsSound s
    → IsSound (with_link p i after (with_behaviour (answering p i r c s.behaviour) s))
answering-IsSound p i r c l after s there found same one (all, (plain, conserved)) = (
  AllOwed-set_link p i (some after) s.links (answering p i r c s.behaviour)
      (λ k e.
        pending_at-set_connection p s.behaviour i (one_answered c)
        ∙ ap some (left ∙ ap owed (some-injective _ _ e)))
      (λ q j k apart e.
        pending_at-set_connection_other p s.behaviour i q j (one_answered c) apart ∙ all q j k e),
  (
    (tt, plain),
    λ q. omega (arith, conserved q, weight-answering p i r c s.behaviour found positive q),
  ),
)
  where
    positive : 0 < c.pending_requests
    positive = omega (arith, same, one)

    left : c.pending_requests - 1 ≡ owed after
    left = omega (arith, same, one)

-- What each way to end `Handler::poll` gives.
module _ (h : Handler) where
  poll_handler-notifies :
      (x : HEvent) (stream : List HEvent)
      → h.stream ≡ x ∷ stream
      → poll_handler h ≡ (some (notify_behaviour x), record h { stream = stream })
  unfolding poll_handler
  poll_handler-notifies x stream e = rw (poll_handler, e) refl

  poll_handler-requests :
      (n : ℕ)
      → h.stream ≡ []
      → h.to_request ≡ suc n
      → poll_handler h ≡ (some outbound_substream_request, record h { to_request = n })
  unfolding poll_handler
  poll_handler-requests n quiet e =
      rw (poll_handler, quiet, e)
        (ap (λ m. (some outbound_substream_request, record h { to_request = n; stream = m })) quiet)

  poll_handler-pending :
      h.stream ≡ [] → h.to_request ≡ 0 → poll_handler h ≡ (none, record h { waker = true })
  unfolding poll_handler
  poll_handler-pending quiet e =
      rw (poll_handler, quiet, e)
        (ap (λ m. (none, record h { stream = m; waker = true })) quiet
          ∙ ap (λ n. (none, record h { to_request = n; stream = []; waker = true })) e)

module _ (p i : ℕ) (l : Link) (s : System) (there : s.links p i ≡ some l) (sound : IsSound s) where
  -- A result that the handler has ready.
  notified-EndsSound :
      (e : HEvent) (stream : List HEvent)
      → (l.handler).stream ≡ e ∷ stream
      → EndsSound (
          handler_out p i
            (some (notify_behaviour e))
            (record l { handler = record l.handler { stream = stream } })
            s)
  unfolding on_connection_handler_event
  notified-EndsSound (incoming x) stream ready =
      IsSound-with_link p i l (record l { handler = record l.handler { stream = stream } })
        (with_behaviour (push_event (generate_event (incoming_stream p x)) s.behaviour) s) there
        (omega (arith, ap results ready))
        (sound.0, ((tt, (sound.1).0), λ q. omega (arith, (sound.1).1 q)))
  notified-EndsSound (outgoing r) stream ready =
      subst (λ o. EndsSound (informed p i o after s))
        (sym (outgoing-answering p i r (at_link.0) s.behaviour (at_link.1) positive))
        (answering-IsSound p i r (at_link.0) l after s there (at_link.1) (at_link.2) one sound)
    where
      after : Link
      after = record l { handler = record l.handler { stream = stream } }

      at_link : AtLink p i s.behaviour (owed l)
      at_link = pending_at-find_connection p i (owed l) s.behaviour (sound.0 p i l there)

      one : owed l ≡ suc (owed after)
      one = omega (arith, ap results ready)

      positive : 0 < (at_link.0).pending_requests
      positive = omega (arith, (at_link.2), one)

  -- A handler that is polled says what it is still to make, or what it has the results of.
  pub handler_polled-EndsSound : EndsSound (handler_polled p i l s)
  unfolding poll_handler
  handler_polled-EndsSound = ready ((l.handler).stream) refl
    where
      after_poll : Option HandlerOut × Handler → Type 0
      after_poll r = EndsSound (handler_out p i (r.0) (record l { handler = r.1 }) s)

      ends :
          (r : Option HandlerOut × Handler)
          → poll_handler l.handler ≡ r
          → after_poll r
          → EndsSound (handler_polled p i l s)
      ends r e sound = subst after_poll (sym e) sound

      requested :
          (l.handler).stream ≡ []
          → (n : ℕ) → (l.handler).to_request ≡ n
          → EndsSound (handler_polled p i l s)
      requested quiet zero e = ends _ (poll_handler-pending l.handler quiet e) (
          IsSound-with_link p i l (record l { handler = record l.handler { waker = true } }) s there
            (omega arith) sound)
      requested quiet (suc n) e = ends _ (poll_handler-requests l.handler n quiet e) (
          IsSound-with_link p i l
            (record { handler = record l.handler { to_request = n }; asked = l.asked + 1 }) s there
            (omega (arith, e)) sound)

      ready :
          (stream : List HEvent) → (l.handler).stream ≡ stream → EndsSound (handler_polled p i l s)
      ready [] e = requested e ((l.handler).to_request) refl
      ready (x ∷ stream) e =
          ends _ (poll_handler-notifies l.handler x stream e) (notified-EndsSound x stream e)

  -- A stream that was asked for has its result, which the handler keeps.
  pub settled-IsSound : (r : Result ℕ ℕ) → IsSound (settled p i r l s)
  unfolding on_connection_event
  settled-IsSound r = go l.asked refl r
    where
      go : (n : ℕ) → l.asked ≡ n → (r : Result ℕ ℕ) → IsSound (settled p i r l s)
      go zero e r = rw e sound
      go (suc n) e (ok o) = rw e (IsSound-with_link p i l _ s there (omega (arith, e)) sound)
      go (suc n) e (err x) = rw e (IsSound-with_link p i l _ s there (omega (arith, e)) sound)

  pub accepted-IsSound :
      (stream : ℕ)
      → IsSound (
          with_link p i
            (record l { handler = on_connection_event (fully_negotiated_inbound stream) l.handler })
            s)
  unfolding on_connection_event
  accepted-IsSound stream = IsSound-with_link p i l _ s there (omega arith) sound
