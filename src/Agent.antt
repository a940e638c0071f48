-- ===== src/Agent.antt =====
-- implementations/rust/crates/agent-core/src/lib.rs: the agents' side of the protocol.
pub mod Replay
pub mod Requests
pub mod Receive
mod Tests
