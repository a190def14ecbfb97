-- ===== src/Storage/Examples.antt =====
-- The theorems on storage/node/src/storage.rs and storage/satelite/src/storage.rs at concrete
-- values: an allocation of ten units, and a satelite with two nodes.
use onion_network.Base.{◌+◌, ℕ, ◌≡◌, refl, Bool, true, Option, none, some, List, [], ◌∷◌, arith}
use onion_network.Codec.Sum.{ok, err, SocketAddr, v4}
use onion_network.Chat.Members.Database.{Store}
use onion_network.Chat.Examples.{function_store}
use onion_network.Storage.Bandwidths.{
  invalid_proof, not_found, ProofOf, BandwidthContext, BandwidthUse, CompactBandwidthUse,
  Bandwidths, new_bandwidths, store, fresh_use, used, register, update_allocation,
  already_registered,
}
use onion_network.Storage.Handlers.{
  extract_socket_addr, Protocol, ip4, tcp, not_registered_node, FileMeta, Satelite, heartbeat,
  delete_file, get_file_holders,
}
use onion_network.Storage.Served.{heartbeat-replayed, delete_file-once}
use onion_network.Storage.Spent.{
  Reaches, start, registers, Reaches-register, update_allocation-again,
}
use onion_network.Storage.Nodes.{
  NodeProfile, NodeProfiles, returned, write, request_gc, update_addr, register_node, from_records,
  new_profile,
}
use onion_network.Storage.Files.{Address, Allocated, allocate_file, take_space, take_nonces}
use onion_network.Storage.Indexed.{
  IsIndexed, KeepsIndex, register_node-request_gc-update_addr-IsIndexed,
}
use onion_network.Storage.Guards.{request_gc-waits}

abbrev ten_units : ProofOf BandwidthContext
ten_units = record {
  pk = 1;
  nonce = 0;
  signature = 2;
  context = record { dest = 7; issuer = 7; amount = 10 };
}

abbrev accept : {A : Type 0} → A → Bool
accept a = true

abbrev paid : Bandwidths
paid = store 7 (fresh_use 3 ten_units) new_bandwidths

paid-Reaches : Reaches accept accept paid
unfolding register
paid-Reaches = registers 3 ten_units new_bandwidths paid start refl

Reaches-register_example : register accept 3 ten_units paid ≡ err already_registered
Reaches-register_example =
    Reaches-register accept accept 3 ten_units paid (fresh_use 3 ten_units) paid-Reaches refl
      (omega arith) refl refl

abbrev all_ten : CompactBandwidthUse
all_ten = record { signature = 5; amount = 10 }

abbrev finished : List (ProofOf BandwidthUse) → Bandwidths
finished uses = record paid { finished_bandwidths = uses }

abbrev spent : ProofOf BandwidthUse
spent = used all_ten (fresh_use 3 ten_units)

update_allocation-again_example :
    (update_allocation accept 7 all_ten paid ≡ some (10, finished (spent ∷ [])))
    × (update_allocation accept 7 all_ten (finished (spent ∷ []))
        ≡ some (10, finished (spent ∷ spent ∷ [])))
update_allocation-again_example =
    update_allocation-again accept accept 7 all_ten paid (fresh_use 3 ten_units) refl (omega arith)
      refl refl

abbrev socket : ℕ → SocketAddr
socket n = record { ip = v4 (10 ∷ 0 ∷ 0 ∷ n ∷ []); port = 80 }

abbrev node : NodeProfile
node = new_profile 11 12 (socket 13) 100

abbrev satelite : NodeProfiles
satelite = from_records (node ∷ new_profile 21 22 (socket 23) 200 ∷ [])

satelite-IsIndexed : IsIndexed satelite
unfolding from_records
satelite-IsIndexed = record { identities = λ k. refl; space = refl }

register_node-request_gc-update_addr-IsIndexed_example :
    IsIndexed ((register_node 31 32 (socket 33) 300 satelite).1)
    × KeepsIndex (request_gc 5000 31 1 satelite)
    × KeepsIndex (update_addr 31 1 (socket 33) satelite)
unfolding from_records
register_node-request_gc-update_addr-IsIndexed_example =
    register_node-request_gc-update_addr-IsIndexed satelite 31 32 (socket 33) 300 5000 1
      satelite-IsIndexed (omega arith)

abbrev collected_node : NodeProfiles
collected_node = write 0 (record node { last_requested_gc = 5000; nonce = 1 }) satelite

request_gc-waits_example :
    (request_gc 5000 11 1 satelite ≡ returned (some 0, collected_node))
    × (request_gc 6000 11 2 collected_node ≡ returned (none, collected_node))
unfolding from_records
request_gc-waits_example =
    request_gc-waits satelite node 11 0 5000 6000 2 refl refl (omega arith) (omega arith)
      (omega arith) (omega arith)

-- A file of which no node has room for a piece is granted.
granted_file :
    (r : Allocated × NodeProfiles) × (allocate_file 1 2 99 5000 satelite
      ≡ returned (some (r.0), r.1))
unfolding from_records allocate_file take_space take_nonces
granted_file = (_, refl)

abbrev S : Store ℕ
S = function_store ℕ

abbrev empty : ℕ → Option ℕ
empty k = none

abbrev multiaddr : List Protocol
multiaddr = ip4 (10 ∷ 0 ∷ 0 ∷ 99 ∷ []) ∷ tcp 80 ∷ []

abbrev beat : ProofOf ℕ
beat = record { pk = 1; nonce = 5; signature = 0; context = 3 }

abbrev hash : ℕ → ℕ
hash pk = pk + 10

abbrev once : NodeProfiles
once = write 0 (record node { nonce = 5 }) satelite

heartbeat-replayed_example :
    (heartbeat 3 hash hash accept multiaddr beat satelite
      ≡ returned (err not_registered_node, once))
    × (heartbeat 3 hash hash accept multiaddr beat once
        ≡ returned (ok tt, write 0 (record node { nonce = 6; addr = socket 99 }) once))
unfolding from_records extract_socket_addr
heartbeat-replayed_example =
    heartbeat-replayed 3 hash hash accept multiaddr (socket 99) beat satelite node 0 refl refl refl
      refl refl (omega arith)

abbrev F : Store FileMeta
F = function_store FileMeta

abbrev nothing : ℕ → Option FileMeta
nothing k = none

abbrev meta : FileMeta
meta = record { holders = 0 ∷ 1 ∷ []; owner = 11 }

abbrev key : Address → ℕ
key address = address.id

abbrev server : Satelite S F key hash
server = record { nodes = satelite; files = F.put 70 meta nothing; users = S.put 11 4 empty }

abbrev removal : ProofOf Address
removal = record { pk = 1; nonce = 5; signature = 0; context = record { id = 70; size = 1 } }

abbrev removed : Satelite S F key hash
removed = record {
  nodes = satelite;
  files = F.del 70 (F.put 70 meta nothing);
  users = S.put 11 5 (S.put 11 4 empty);
}

delete_file-once_example :
    (delete_file S F key hash accept removal server ≡ (ok tt, removed))
    × (get_file_holders S F key hash (record { id = 70; size = 1 }) removed
        ≡ returned (err not_found))
    × (delete_file S F key hash accept removal removed ≡ (err invalid_proof, removed))
delete_file-once_example =
    delete_file-once S F key hash accept removal server 4 meta refl (S.get-put 11 4 empty) refl
      (F.get-put 70 meta nothing) refl
