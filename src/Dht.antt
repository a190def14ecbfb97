-- ===== src/Dht.antt =====
-- protocols/dht/src
pub mod RoutingTable
mod Examples
