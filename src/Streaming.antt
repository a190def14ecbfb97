-- ===== src/Streaming.antt =====
-- Streams that a node opens to its peers: protocols/streaming/src/lib.rs.
pub mod Behaviour
pub mod Requests
pub mod Pending
pub mod System
pub mod Weights
pub mod Delivered
pub mod Kept
pub mod Owed
pub mod Steps
pub mod Polled
pub mod Answered
pub mod Runs
pub mod Examples
