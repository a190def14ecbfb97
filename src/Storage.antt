-- ===== src/Storage.antt =====
-- The storage network: what a storage node keeps of the bandwidth that users pay for
-- (storage/node/src/storage.rs), and what a satelite keeps of nodes, files and users
-- (storage/satelite/src).
pub mod Bandwidths
pub mod Spent
pub mod Nodes
pub mod Files
pub mod Indexed
pub mod Guards
pub mod Granted
pub mod Handlers
pub mod Served
mod Examples
