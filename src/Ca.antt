-- ===== src/Ca.antt =====
-- implementations/rust/crates/ca-core/src/lib.rs: the certificate authority.
pub mod Replay
pub mod Store
pub mod Values
pub mod Policy
pub mod Guard
pub mod Handler
pub mod Process
mod Tests
