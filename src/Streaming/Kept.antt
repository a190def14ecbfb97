-- ===== src/Streaming/Kept.antt =====
-- protocols/streaming/src/lib.rs: an operation about one connection leaves what is pending on the
-- others.
use onion_network.Base.{
  ℕ, ◌≡◌, ◌≢◌, refl, sym, ap, ◌∙◌, Option, none, some, List, [], ◌∷◌, ◌==◌, ==_iff, Bool-cases,
  Option-cases, inl, inr, arith,
}
use mathlib.Core.Path.{subst}
use onion_network.Base.Entries.{find_key, remove_key, find_key-remove_key_other}
use onion_network.Streaming.Behaviour.{
  Connection, total_requests, no_requests, Error, Behaviour, group_of, find_connection, set_group,
  more_requests, create_stream, all_pending, conn_or_default, establish, hand_on, connection_gone,
}
use onion_network.Streaming.Pending.{
  pending_of, pending_in, pending_at, Apart, pending_in-more_requests, pending_at-set_group,
  pending_at-set_group_other, pending_at-set_connection, pending_at-set_connection_other,
}

some_not_none {ℓ} : {v : ℕ} {o : Option ℕ} {T : Type ℓ} → o ≡ none → o ≡ some v → T
some_not_none missing found = cc

-- A group that is written keeps what is pending when its own connections keep it.
set_group-keeps :
    (p : ℕ) (g : List (ℕ × Connection)) (b : Behaviour) (q j v : ℕ)
    → pending_at q j b ≡ some v
    → (p ≡ q → pending_in j g ≡ some v)
    → pending_at q j (set_group p g b) ≡ some v
set_group-keeps p g b q j v there here = elim (Bool-cases (p == q)) [
  | inl same ↦
      subst (λ r. pending_at r j (set_group p g b) ≡ some v) ((==_iff p q).0 same)
        (pending_at-set_group p b j g ∙ here ((==_iff p q).0 same))
  | inr other ↦ pending_at-set_group_other p b q j g (ground (arith, other)) ∙ there
]

pub create_stream-keeps :
    (p i : ℕ) (b : Behaviour) (q j v : ℕ)
    → pending_at q j b ≡ some v
    → pending_at q j (create_stream p i b) ≡ some v
unfolding create_stream
create_stream-keeps p i b q j v there = go (group_of p b) refl
  where
    at_peer : (g : List (ℕ × Connection)) → group_of p b ≡ g → p ≡ q → pending_in j g ≡ some v
    at_peer g e same =
        sym (ap (pending_in j) e) ∙ subst (λ r. pending_at r j b ≡ some v) (sym same) there

    go :
        (g : List (ℕ × Connection))
        → group_of p b ≡ g
        → pending_at q j (create_stream p i b) ≡ some v
    go [] e =
        rw (create_stream, e)
          (set_group-keeps p ((i, more_requests 1 no_requests) ∷ []) b q j v there
            (λ same. some_not_none refl (at_peer [] e same)))
    go ((k, c) ∷ rest) e =
        rw (create_stream, e)
          (set_group-keeps p ((k, more_requests 1 c) ∷ rest) b q j v there
            (λ same. pending_in-more_requests j k 1 c rest ∙ at_peer ((k, c) ∷ rest) e same))

pending_at-remove_key_other :
    (p : ℕ) (b rest : Behaviour) (q j : ℕ)
    → rest.connections ≡ remove_key p b.connections
    → p ≢ q
    → pending_at q j rest ≡ pending_at q j b
pending_at-remove_key_other p b rest q j e apart =
    ap (λ m. pending_in j (elim (find_key q m) [ none ↦ [] | some group ↦ group ])) e
    ∙ ap (λ o. pending_in j (elim o [ none ↦ [] | some group ↦ group ]))
        (find_key-remove_key_other p q b.connections apart)

hand_on-keeps :
    (total p : ℕ) (e : Error) (g : List (ℕ × Connection)) (b : Behaviour) (q j v : ℕ)
    → pending_at q j b ≡ some v
    → (p ≡ q → pending_in j g ≡ some v)
    → pending_at q j (hand_on total p e g b) ≡ some v
unfolding hand_on
hand_on-keeps total p e [] b q j v there here =
    pending_at-remove_key_other p b (hand_on total p e [] b) q j refl
      (λ same. some_not_none refl (here same))
    ∙ there
hand_on-keeps total p e ((k, c) ∷ rest) b q j v there here =
    set_group-keeps p ((k, more_requests total c) ∷ rest) b q j v there
      (λ same. pending_in-more_requests j k total c rest ∙ here same)

pub connection_gone-keeps :
    (p i : ℕ) (e : Error) (b : Behaviour) (q j v : ℕ)
    → Apart p i q j
    → pending_at q j b ≡ some v
    → pending_at q j (connection_gone p i e b) ≡ some v
unfolding connection_gone
connection_gone-keeps p i e b q j v apart there = elim (Option-cases (find_connection p i b)) [
  | inl missing ↦ rw (connection_gone, missing) there
  | inr (c, found) ↦
      rw (connection_gone, found)
        (hand_on-keeps (total_requests c) p e (remove_key i (group_of p b)) b q j v there (λ same.
          ap pending_of (find_key-remove_key_other i j (group_of p b) (keys apart same))
          ∙ subst (λ r. pending_at r j b ≡ some v) (sym same) there))
]
  where
    keys : Apart p i q j → p ≡ q → i ≢ j
    keys (inl peers) same = absurd (peers same)
    keys (inr other) same = other

pub establish-keeps :
    (p i : ℕ) (b : Behaviour) (q j : ℕ)
    → Apart p i q j
    → pending_at q j ((establish p i b).1) ≡ pending_at q j b
unfolding establish
establish-keeps p i b q j apart =
    pending_at-set_connection_other p b i q j
      (all_pending (conn_or_default (find_connection p i b))) apart

-- The handler is to make the requests that are pending on its connection.
pub establish-pending :
    (p i : ℕ) (b : Behaviour)
    → pending_at p i ((establish p i b).1) ≡ some (((establish p i b).0).to_request)
unfolding establish
establish-pending p i b =
    pending_at-set_connection p b i (all_pending (conn_or_default (find_connection p i b)))
