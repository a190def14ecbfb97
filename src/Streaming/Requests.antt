-- ===== src/Streaming/Requests.antt =====
-- protocols/streaming/src/lib.rs: how many requests the connections of a peer stand for, and what
-- the writes to the connections make of that number.
use onion_network.Base.{
  ℕ, ◌+◌, ◌≡◌, ◌≢◌, refl, ap, ◌∙◌, false, Option, none, some, List, ◌==◌, ==_refl, if◌then◌else◌,
  Option-cases, inl, inr, arith,
}
use onion_network.Base.Entries.{
  find_key, insert_key, remove_key, weigh, weigh_found, weigh-insert_key, weigh-remove_key,
  find_key-insert_key, find_key-insert_key_other,
}
use onion_network.Streaming.Behaviour.{
  Connection, total_requests, Behaviour, group_of, find_connection, set_group, set_connection,
}

abbrev pub group_total : List (ℕ × Connection) → ℕ
group_total = weigh (λ cid c. total_requests c)

abbrev share : ℕ → ℕ → List (ℕ × Connection) → ℕ
share peer k group = if k == peer then group_total group else 0

abbrev pub requests : ℕ → Behaviour → ℕ
requests peer b = weigh (share peer) b.connections

-- The requests of a connection that may be missing.
abbrev pub found_total : Option Connection → ℕ
found_total none = 0
found_total (some c) = total_requests c

share-same : (peer : ℕ) (group : List (ℕ × Connection)) → share peer peer group ≡ group_total group
share-same peer group = rw (==_refl peer) refl

share-other : (peer k : ℕ) (group : List (ℕ × Connection)) → k ≢ peer → share peer k group ≡ 0
share-other peer k group apart = rw different refl
  where
    different : (k == peer) ≡ false
    different = ground (arith, apart)

module _ (peer : ℕ) (b : Behaviour) where
  found_group :
      weigh_found (share peer) peer (find_key peer b.connections) ≡ group_total (group_of peer b)
  found_group = elim (Option-cases (find_key peer b.connections)) [
    | inl missing ↦ rw (group_of, missing) refl
    | inr (group, found) ↦ rw (group_of, found) (share-same peer group)
  ]

  pub requests-set_group :
      (group : List (ℕ × Connection))
      → requests peer (set_group peer group b) + group_total (group_of peer b)
        ≡ requests peer b + group_total group
  requests-set_group group = omega (
    arith,
    weigh-insert_key (share peer) peer group b.connections,
    found_group,
    share-same peer group,
  )

  pub requests-set_connection :
      (cid : ℕ) (c : Connection)
      → requests peer (set_connection peer cid c b) + found_total (find_connection peer cid b)
        ≡ requests peer b + total_requests c
  requests-set_connection cid c = omega (
    arith,
    requests-set_group (insert_key cid c (group_of peer b)),
    weigh-insert_key (λ k c. total_requests c) cid c (group_of peer b),
    found (find_connection peer cid b),
  )
    where
      found : (o : Option Connection) → weigh_found (λ k c. total_requests c) cid o ≡ found_total o
      found none = refl
      found (some c) = refl

  pub requests-remove_key :
      (rest : Behaviour)
      → rest.connections ≡ remove_key peer b.connections
      → requests peer rest + group_total (group_of peer b) ≡ requests peer b
  requests-remove_key rest e = omega (
    arith,
    ap (weigh (share peer)) e,
    weigh-remove_key (share peer) peer b.connections,
    found_group,
  )

  found_other : (q : ℕ) → peer ≢ q → weigh_found (share q) peer (find_key peer b.connections) ≡ 0
  found_other q apart = elim (Option-cases (find_key peer b.connections)) [
    | inl missing ↦ rw missing refl
    | inr (group, found) ↦ rw found (share-other q peer group apart)
  ]

  pub requests-set_group_other :
      (q : ℕ) (group : List (ℕ × Connection))
      → peer ≢ q
      → requests q (set_group peer group b) ≡ requests q b
  requests-set_group_other q group apart = omega (
    arith,
    weigh-insert_key (share q) peer group b.connections,
    found_other q apart,
    share-other q peer group apart,
  )

  pub requests-remove_key_other :
      (q : ℕ) (rest : Behaviour)
      → rest.connections ≡ remove_key peer b.connections
      → peer ≢ q
      → requests q rest ≡ requests q b
  requests-remove_key_other q rest e apart = omega (
    arith,
    ap (weigh (share q)) e,
    weigh-remove_key (share q) peer b.connections,
    found_other q apart,
  )

  -- What is found after a write.
  pub group_of-set_group :
      (group : List (ℕ × Connection)) → group_of peer (set_group peer group b) ≡ group
  group_of-set_group group = rw (group_of, find_key-insert_key peer group b.connections) refl

  pub group_of-set_group_other :
      (q : ℕ) (group : List (ℕ × Connection))
      → peer ≢ q
      → group_of q (set_group peer group b) ≡ group_of q b
  group_of-set_group_other q group apart =
      rw (group_of, find_key-insert_key_other peer q group b.connections apart) refl

  pub find_connection-set_connection :
      (cid : ℕ) (c : Connection) → find_connection peer cid (set_connection peer cid c b) ≡ some c
  find_connection-set_connection cid c =
      ap (find_key cid) (group_of-set_group (insert_key cid c (group_of peer b)))
      ∙ find_key-insert_key cid c (group_of peer b)
