-- ===== src/Codec.antt =====
-- utils/codec
pub mod Buffer
pub mod Reader
pub mod Int
pub mod Traits
pub mod Seq
pub mod Sum
pub mod Maps
pub mod Text
pub mod Collections
pub mod RoundTrips
mod Examples
