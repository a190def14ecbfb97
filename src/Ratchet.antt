-- ===== src/Ratchet.antt =====
-- The double ratchet by which two members of a chat derive a secret for each message:
-- crypto/double-ratchet/src/lib.rs.
pub mod Chain
pub mod Session
pub mod Recv
pub mod Conversation
pub mod Agreed
pub mod Kept
pub mod Gap
pub mod Late
pub mod Bounds
mod Examples
