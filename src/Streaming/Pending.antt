-- ===== src/Streaming/Pending.antt =====
-- protocols/streaming/src/lib.rs: `pending_requests` of a connection, and what the writes to the
-- connections leave of it.
use onion_network.Base.{
  ℕ, ◌≡◌, ◌≢◌, ◌⊎◌, refl, ap, ◌∙◌, Option, none, some, List, ◌∷◌, ◌==◌, ==_iff, Bool-cases, inl,
  inr, arith,
}
use onion_network.Base.Entries.{
  find_key, insert_key, find_key-insert_key, find_key-insert_key_other,
}
use onion_network.Streaming.Behaviour.{
  Connection, Behaviour, group_of, set_group, set_connection, more_requests,
}
use mathlib.Core.Path.{subst}
use onion_network.Streaming.Requests.{group_of-set_group, group_of-set_group_other}

abbrev pub pending_of : Option Connection → Option ℕ
pending_of none = none
pending_of (some c) = some c.pending_requests

abbrev pub pending_in : ℕ → List (ℕ × Connection) → Option ℕ
pending_in cid group = pending_of (find_key cid group)

abbrev pub pending_at : ℕ → ℕ → Behaviour → Option ℕ
pending_at peer cid b = pending_in cid (group_of peer b)

-- Two connections are different ones.
abbrev pub Apart : ℕ → ℕ → ℕ → ℕ → Type 0
Apart p i q j = (p ≢ q) ⊎ (i ≢ j)

pub same-cases : (p i q j : ℕ) → ((p ≡ q) × (i ≡ j)) ⊎ Apart p i q j
same-cases p i q j = elim (Bool-cases (p == q)) [
  | inr other ↦ inr (inl (ground (arith, other)))
  | inl same ↦ elim (Bool-cases (i == j)) [
    | inr other ↦ inr (inr (ground (arith, other)))
    | inl also ↦ inl ((==_iff p q).0 same, (==_iff i j).0 also)
  ]
]

-- New requests are no pending ones.
pub pending_in-more_requests :
    (j k n : ℕ) (c : Connection) (rest : List (ℕ × Connection))
    → pending_in j ((k, more_requests n c) ∷ rest) ≡ pending_in j ((k, c) ∷ rest)
pending_in-more_requests j k n c rest = elim (Bool-cases (k == j)) [
  | inl same ↦ rw same refl
  | inr other ↦ rw other refl
]

module _ (p : ℕ) (b : Behaviour) where
  pub pending_at-set_group :
      (j : ℕ) (group : List (ℕ × Connection))
      → pending_at p j (set_group p group b) ≡ pending_in j group
  pending_at-set_group j group = ap (pending_in j) (group_of-set_group p b group)

  pub pending_at-set_group_other :
      (q j : ℕ) (group : List (ℕ × Connection))
      → p ≢ q
      → pending_at q j (set_group p group b) ≡ pending_at q j b
  pending_at-set_group_other q j group apart =
      ap (pending_in j) (group_of-set_group_other p b q group apart)

  pub pending_at-set_connection :
      (i : ℕ) (c : Connection) → pending_at p i (set_connection p i c b) ≡ some c.pending_requests
  pending_at-set_connection i c =
      pending_at-set_group i (insert_key i c (group_of p b))
      ∙ ap pending_of (find_key-insert_key i c (group_of p b))

  pub pending_at-set_connection_other :
      (i q j : ℕ) (c : Connection)
      → Apart p i q j
      → pending_at q j (set_connection p i c b) ≡ pending_at q j b
  pending_at-set_connection_other i q j c (inl peers) =
      pending_at-set_group_other q j (insert_key i c (group_of p b)) peers
  pending_at-set_connection_other i q j c (inr keys) = elim (Bool-cases (p == q)) [
    | inr other ↦ pending_at-set_group_other q j written (ground (arith, other))
    | inl same ↦
        subst (λ r. pending_at r j (set_connection p i c b) ≡ pending_at r j b)
          ((==_iff p q).0 same)
          (pending_at-set_group j written
            ∙ ap pending_of (find_key-insert_key_other i j c (group_of p b) keys))
  ]
    where
      written : List (ℕ × Connection)
      written = insert_key i c (group_of p b)
