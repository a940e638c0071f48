-- ===== src/Broker.antt =====
-- implementations/rust/crates/broker-core/src/lib.rs: the routing core of the broker.
pub mod Errors
pub mod Offline
pub mod Channel
pub mod Router
mod Tests
