-- ===== src/Lib.antt =====
-- The verified core of the onion network: the binary codec that every message, record and request
-- is written with, what a chat server keeps for a chat, the table by which nodes are found, the
-- double ratchet between two members, the streams between nodes, and the state of the storage
-- network.
--
-- Codec (utils/codec/src). `Encode` is a function into an abstract `Buffer` (Codec/Buffer: a
--   vector, a bounded array, a slice, a counter), `Decode` a function from the bytes to a value or
--   a failure and the bytes that it leaves (Codec/Reader), and the provided methods are in
--   Codec/Traits. Codec/Int has the integers, `bool`, `u8` and `()`; Codec/Seq slices, vectors and
--   reminders; Codec/Sum options, results, tuples, ranges and addresses; Codec/Maps maps and error
--   kinds; Codec/Text UTF-8; Codec/Collections the types whose codec is that of another one. The
--   Laws below each of them state what is written and read; Codec/RoundTrips puts both together.
-- Chat (chat/spec/src, chat/server/src/storage, crypto/crypto/src/proof.rs). Chat/Messages is
--   `retain_messages` and `unpack_messages` of chat/spec/src/chat.rs: a block of messages is one
--   buffer that is read from its end. Chat/Members is `Member` and the functions of
--   `storage::chat::Handle` that write the members; the database is the interface
--   Chat/Members/Database. Chat/Blocks is the rest of that file: the root, the votes and
--   `accept_block`, in Chat/Blocks/Proposals the proposals and the choice of the node that makes
--   them, and in Chat/Blocks/Send the part of `send_message` that writes. Accepting a block
--   filters the unfinalized messages by Chat/Messages, and sending begins with the charge of the
--   sender in Chat/Members; Chat/Blocks/Fetch reads. Chat/Members/Recovery and
--   Chat/Members/PermissionText are `recover_members` and the text of `Permissions`. Chat/Errors
--   has `ChatError`, Chat/Topics the topics of chat/spec/src/lib.rs and the constant contexts of
--   proofs, Chat/Members/Combine `Member::combine`, Chat/Profiles the mailbox and the nonces of
--   chat/server/src/storage/profile.rs, Chat/Reputation the ratings of
--   chat/server/src/reputation.rs. Chat/Mailbox is `unpack_mail` of chat/spec/src/profile.rs,
--   which reads a mailbox, Chat/Mailbox/Once the read that a proof allows, and
--   Chat/Mailbox/Routing `send_mail`, the events and the subscriptions of chat/server/src/api.
--   Chat/Consensus is `Repl` of chat/server/src/api.rs, the call of a group of nodes: each of them
--   makes the writes above, and the answer that most of them give counts. Chat/Equality is the
--   equality by which answers are compared.
-- Dht (protocols/dht/src/lib.rs). Dht/RoutingTable is the table by which the nodes of a chat are
--   found, an ascending list of routes.
-- Ratchet (crypto/double-ratchet/src/lib.rs). Ratchet/Chain is `Chain` with the key derivation,
--   Ratchet/Session `DoubleRatchet` with its handshake, `send` and `recv`. A call takes the
--   randomness that it may draw and returns the state that it leaves, also where it fails.
--   Ratchet/Recv, Ratchet/Gap and Ratchet/Kept have the lemmas, Ratchet/Conversation the invariant
--   of two ends of a conversation, Ratchet/Agreed, Ratchet/Late and Ratchet/Bounds the theorems.
-- Streaming (protocols/streaming/src/lib.rs). Streaming/Behaviour is `Behaviour` and `Handler`,
--   which open the streams that the rest of the node asks for; Streaming/System drives them as the
--   swarm of libp2p does, in any order. Streaming/Weights counts the requests, Streaming/Owed
--   states what a handler owes, and Streaming/Runs has the theorem about whole runs.
-- Erasure (storage/berkleamp-welch). Erasure/Tables are the tables that build.rs writes,
--   Erasure/Galois the operations of src/galois.rs on them; Erasure/Valid checks the tables by
--   computing them, and Erasure/Field, Erasure/Powers and Erasure/Slices have the theorems.
-- Storage (storage/node/src/storage.rs, storage/satelite/src, storage/spec/src/lib.rs).
--   Storage/Bandwidths is what a storage node keeps of the bandwidth that users pay for,
--   Storage/Nodes and Storage/Files what a satelite keeps of nodes, files and users,
--   Storage/Handlers the requests that it serves with them; the theorems are in Storage/Spent,
--   Storage/Indexed, Storage/Guards, Storage/Granted and Storage/Served. The maps in lmdb use the
--   interface Chat/Members/Database.
--
-- Bytes, hashes and identities are numbers. Hash functions, the check of a proof, the exclusive
-- or of 256-bit identities, key derivation, X25519, Kyber and the database are parameters; the
-- exclusive or of secrets and of bytes is that of native numbers. Integers keep their width where
-- the source casts or wraps; counts and lengths are below 2 ^ 63. Fuel: the loop of
--   `base128_encode`
-- has ten rounds, which a `u64` never exceeds; `unpack_messages` and `retain_messages` have a round
-- for each byte, and each round of theirs takes two bytes. `find_decode_reminder` and
-- `ReminderVec` loop for ever on a decoder that takes no bytes, which running out of fuel stands
--   for.
-- The loop of `galois::exp` has a round for each unit of the number that it reduces.
--
-- Not modelled: the network, encryption, the user interfaces, the chain, the sockets and files of
-- the storage network and the matrices of its erasure code, lmdb, and of the chat storage the paths
-- and files of the operating system, `fetch_members` and `export_data`.
pub mod Base
pub mod Chat
pub mod Codec
pub mod Dht
pub mod Erasure
pub mod Ratchet
pub mod Storage
pub mod Streaming
