-- ===== src/Erasure.antt =====
-- The erasure code of the storage network: the field of 256 elements that it computes in
-- (storage/berkleamp-welch/build.rs and storage/berkleamp-welch/src/galois.rs).
pub mod Tables
pub mod Valid
pub mod Galois
pub mod Field
pub mod Powers
pub mod Slices
mod Examples
