-- ===== src/Storage/Served.antt =====
-- storage/satelite/src/node.rs and storage/satelite/src/client.rs: what the requests do one after
-- the other.
use onion_network.Base.{
  ℕ, ◌<◌, ◌≤◌, ◌≡◌, refl, ◌∙◌, Bool, true, false, some, List, get_elem?, lt→ltb, le→ltb, ◌==◌,
  ==_refl, arith,
}
use onion_network.Chat.Members.{advance_to}
use onion_network.Chat.Members.Database.{Store}
use onion_network.Codec.Sum.{ok, err, SocketAddr}
use onion_network.Storage.Bandwidths.{invalid_proof, not_found, ProofOf}
use onion_network.Storage.Nodes.{
  NodeProfile, NodeProfiles, returned, write, addr_of, next_nonce, update_addr,
}
use onion_network.Storage.Files.{Address, delete, advance_user_nonce}
use onion_network.Storage.Guards.{find_profile-found, get_elem?-set}
use onion_network.Storage.Handlers.{
  not_registered_node, Protocol, extract_socket_addr, FileMeta, Satelite, heartbeat, delete_file,
  get_file_holders,
}

update_addr-newer :
    (p : NodeProfiles) (profile : NodeProfile) (identity id nonce : ℕ) (addr : SocketAddr)
    → p.identity_to_id identity ≡ some id
    → get_elem? p.records id ≡ some profile
    → profile.nonce < nonce
    → update_addr identity nonce addr p
      ≡ returned (false, write id (record profile { nonce = nonce }) p)
unfolding update_addr addr_of advance_to
update_addr-newer p profile identity id nonce addr found there newer =
    find_profile-found identity id p profile _ _ found there
    ∙ rw (lt→ltb profile.nonce nonce newer) refl

update_addr-used :
    (p : NodeProfiles) (profile : NodeProfile) (identity id nonce : ℕ) (addr : SocketAddr)
    → p.identity_to_id identity ≡ some id
    → get_elem? p.records id ≡ some profile
    → nonce ≤ profile.nonce
    → update_addr identity nonce addr p
      ≡ returned
          (true, write id (record profile { nonce = next_nonce profile.nonce; addr = addr }) p)
unfolding update_addr addr_of advance_to
update_addr-used p profile identity id nonce addr found there older =
    find_profile-found identity id p profile _ _ found there
    ∙ rw (le→ltb profile.nonce nonce older) refl

-- A heartbeat of a registered node with a valid proof and a new nonce fails as not registered and
-- leaves the address as it was. The same heartbeat sent again, whose nonce is used up by now,
-- succeeds and changes the address.
pub heartbeat-replayed :
    (our : ℕ) (identity pre : ℕ → ℕ) (verify : ProofOf ℕ → Bool) (addr : List Protocol)
    (socket : SocketAddr) (proof : ProofOf ℕ) (p : NodeProfiles) (profile : NodeProfile) (id : ℕ)
    → our ≡ proof.context
    → verify proof ≡ true
    → extract_socket_addr addr ≡ some socket
    → p.identity_to_id (identity proof.pk) ≡ some id
    → get_elem? p.records id ≡ some profile
    → profile.nonce < proof.nonce
    → let once = record profile { nonce = proof.nonce } in
      let twice = record profile { nonce = next_nonce proof.nonce; addr = socket } in
      (heartbeat our identity pre verify addr proof p
        ≡ returned (err not_registered_node, write id once p))
      × (heartbeat our identity pre verify addr proof (write id once p)
          ≡ returned (ok tt, write id twice (write id once p)))
unfolding heartbeat
heartbeat-replayed our identity pre verify addr socket proof p profile id ours valid parsed found
      there newer =
    (
      rw
          (
            mine,
            valid,
            parsed,
            update_addr-newer p profile (identity proof.pk) id proof.nonce socket found there newer,
          )
          refl,
      rw
          (
            mine,
            valid,
            parsed,
            update_addr-used (write id (record profile { nonce = proof.nonce }) p)
                (record profile { nonce = proof.nonce }) (identity proof.pk) id proof.nonce socket
                found
                (get_elem?-set p.records id profile (record profile { nonce = proof.nonce }) there)
                (omega arith),
          )
          refl,
    )
  where
    mine : (our == proof.context) ≡ true
    mine = ground (arith, ours)

advance_user_nonce-next :
    (U : Store ℕ) (identity nonce : ℕ) (users : U.Db)
    → U.get identity users ≡ some nonce
    → advance_user_nonce U identity (next_nonce nonce) users
      ≡ some (true, U.put identity (next_nonce nonce) users)
unfolding advance_user_nonce
advance_user_nonce-next U identity nonce users found =
    rw (advance_user_nonce, found, ==_refl (next_nonce nonce)) refl

advance_user_nonce-again :
    (U : Store ℕ) (identity nonce : ℕ) (users : U.Db)
    → advance_user_nonce U identity (next_nonce nonce) (U.put identity (next_nonce nonce) users)
      ≡ some (false, U.put identity (next_nonce nonce) users)
unfolding advance_user_nonce
advance_user_nonce-again U identity nonce users =
    rw (advance_user_nonce, U.get-put identity (next_nonce nonce) users, other) refl
  where
    other : (next_nonce (next_nonce nonce) == next_nonce nonce) ≡ false
    other = ground arith

-- A deletion of a file by its owner, with a valid proof and the next nonce, succeeds. On the state
-- that it leaves the file is not found, and the same proof is refused and changes nothing.
pub delete_file-once :
    (U : Store ℕ) (F : Store FileMeta) (key : Address → ℕ) (identity : ℕ → ℕ)
    (verify : ProofOf Address → Bool) (proof : ProofOf Address) (s : Satelite U F key identity)
    (nonce : ℕ) (meta : FileMeta)
    → verify proof ≡ true
    → U.get (identity proof.pk) s.users ≡ some nonce
    → proof.nonce ≡ next_nonce nonce
    → F.get (key proof.context) s.files ≡ some meta
    → meta.owner ≡ identity proof.pk
    → let after = record s {
      users = U.put (identity proof.pk) (next_nonce nonce) s.users;
      files = F.del (key proof.context) s.files;
    } in
      (delete_file U F key identity verify proof s ≡ (ok tt, after))
      × (get_file_holders U F key identity proof.context after ≡ returned (err not_found))
      × (delete_file U F key identity verify proof after ≡ (err invalid_proof, after))
unfolding delete_file delete get_file_holders
delete_file-once U F key identity verify proof s nonce meta valid user next file owner = (
  rw
      (
        valid,
        next,
        advance_user_nonce-next U (identity proof.pk) nonce s.users user,
        delete,
        file,
        mine,
      )
      refl,
  rw (get_file_holders, F.get-del (key proof.context) s.files) refl,
  rw (valid, next, advance_user_nonce-again U (identity proof.pk) nonce s.users) refl,
)
  where
    mine : (meta.owner == identity proof.pk) ≡ true
    mine = ground (arith, owner)
