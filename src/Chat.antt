-- ===== src/Chat.antt =====
-- The chat protocol: chat/spec/src (packed messages, members, errors), chat/server/src/storage
-- (the members, the blocks and the votes of a chat, the mailbox of a profile).
pub mod Messages
pub mod Errors
pub mod Equality
pub mod Members
pub mod Blocks
pub mod Reputation
pub mod Topics
pub mod Profiles
pub mod Mailbox
pub mod Consensus
pub mod Examples
mod BlockExamples
mod MoreExamples
mod MailExamples
