-- ===== src/Storage/Handlers.antt =====
-- storage/satelite/src/node.rs and storage/satelite/src/client.rs: the requests that a satelite
-- serves, on its nodes, files and users. A request that fails returns the state that it leaves.
use onion_network.Base.{ℕ, Bool, Option, none, some, List, [], ◌∷◌, ◌==◌, ◌&&◌, if◌then◌else◌}
use onion_network.Chat.Members.Database.{Store}
use onion_network.Codec.Sum.{Result, ok, err, IpAddr, v4, v6, SocketAddr}
use onion_network.Storage.Bandwidths.{
  ClientError, invalid_proof, already_registered, internal_error, not_allowed, not_found, ProofOf,
}
use onion_network.Storage.Nodes.{
  NodeProfiles, Returned, returned, panicked, register_node, update_addr,
}
use onion_network.Storage.Files.{Address, save, load, delete, advance_user_nonce, expand_holders}

pub data NodeError : Type 0 where
  invalid_node_proof : NodeError
  already_registered_node : NodeError
  not_registered_node : NodeError
  invalid_node_nonce : ℕ → NodeError
  store_error : NodeError
  invalid_address : NodeError

-- The parts of a multiaddr.
pub data Protocol : Type 0 where
  ip4 ip6 : List ℕ → Protocol
  tcp udp : ℕ → Protocol
  other_protocol : Protocol

abbrev ip_of : Protocol → Option IpAddr
ip_of (ip4 ip) = some (v4 ip)
ip_of (ip6 ip) = some (v6 ip)
ip_of (tcp port) = none
ip_of (udp port) = none
ip_of other_protocol = none

abbrev port_of : Protocol → Option ℕ
port_of (tcp port) = some port
port_of (udp port) = some port
port_of (ip4 ip) = none
port_of (ip6 ip) = none
port_of other_protocol = none

unfoldable pub extract_socket_addr : List Protocol → Option SocketAddr
extract_socket_addr [] = none
extract_socket_addr (first ∷ []) = none
extract_socket_addr (first ∷ second ∷ rest) = elim (ip_of first) [
  | none ↦ none
  | some ip ↦ elim (port_of second) [
    | none ↦ none
    | some port ↦ some (record { ip = ip; port = port })
  ]
]

pub record FileMeta : Type 0 where
  pub holders : List ℕ
  pub owner : ℕ

-- `our` is the identity of the satelite, `identity` the hash of a key, `pre` the hash in it that
-- names the node before, and `verify` the check of a signature.
module _ (our : ℕ) (identity pre : ℕ → ℕ) (verify : ProofOf ℕ → Bool) where
  unfoldable pub node_register :
      List Protocol → ProofOf ℕ → ℕ → NodeProfiles → Result (Unit {0}) NodeError × NodeProfiles
  node_register addr proof size p =
      if (our == proof.context) && (proof.nonce == 0)
      then (if verify proof
          then elim (extract_socket_addr addr) [
            | none ↦ (err invalid_address, p)
            | some socket ↦
                let (success, after) =
                  register_node (identity proof.pk) (pre proof.pk) socket size p in
                if success then (ok tt, after) else (err already_registered_node, after)
          ]
          else (err invalid_node_proof, p))
      else (err invalid_node_proof, p)

  unfoldable pub heartbeat :
      List Protocol
      → ProofOf ℕ
      → NodeProfiles
      → Returned (Result (Unit {0}) NodeError × NodeProfiles)
  heartbeat addr proof p =
      if our == proof.context
      then (if verify proof
          then elim (extract_socket_addr addr) [
            | none ↦ returned (err invalid_address, p)
            | some socket ↦ elim (update_addr (identity proof.pk) proof.nonce socket p) [
              | panicked ↦ panicked
              | returned (success, after) ↦
                  returned (if success then ok tt else err not_registered_node, after)
            ]
          ]
          else returned (err invalid_node_proof, p))
      else returned (err invalid_node_proof, p)

-- The users and the files are in the database, where an address is the number of its bytes.
module _ (U : Store ℕ) (F : Store FileMeta) (key : Address → ℕ) (identity : ℕ → ℕ) where
  pub record Satelite : Type 0 where
    pub nodes : NodeProfiles
    pub files : F.Db
    pub users : U.Db

  unfoldable pub client_register :
      ℕ → (ProofOf ℕ → Bool) → ProofOf ℕ → Satelite → Result (Unit {0}) ClientError × Satelite
  client_register our verify proof s =
      if (our == proof.context) && (proof.nonce == 0)
      then (if verify proof
          then (let (success, users) = save U (identity proof.pk) 0 s.users in
              (if success then ok tt else err already_registered, record s { users = users }))
          else (err invalid_proof, s))
      else (err invalid_proof, s)

  abbrev owns : ProofOf Address → FileMeta → Bool
  owns proof m = m.owner == identity proof.pk

  unfoldable pub delete_file :
      (ProofOf Address → Bool)
      → ProofOf Address
      → Satelite
      → Result (Unit {0}) ClientError × Satelite
  delete_file verify proof s =
      if verify proof
      then elim (advance_user_nonce U (identity proof.pk) proof.nonce s.users) [
        | none ↦ (err internal_error, s)
        | some (advanced, users) ↦
            if advanced
            then (let (success, files) = delete F (key proof.context) (owns proof) s.files in
                (
                  if success then ok tt else err not_allowed,
                  record s { users = users; files = files },
                ))
            else (err invalid_proof, record s { users = users })
      ]
      else (err invalid_proof, s)

  unfoldable pub get_file_holders :
      Address → Satelite → Returned (Result (List (ℕ × SocketAddr)) ClientError)
  get_file_holders address s = elim (load F (key address) s.files) [
    | none ↦ returned (err not_found)
    | some meta ↦ elim (expand_holders meta.holders s.nodes) [
      | panicked ↦ panicked
      | returned holders ↦ returned (ok holders)
    ]
  ]
