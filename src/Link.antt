-- ===== src/Link.antt =====
-- implementations/rust/crates/infrastructure-link/src/lib.rs: the acknowledged link between the
-- broker and the CA.
pub mod Codec
pub mod Pending
pub mod Dedup
pub mod Auth
mod Tests
