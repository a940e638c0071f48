-- ===== src/Protocol.antt =====
-- implementations/rust/crates/protocol-core: the wire format and its payloads.
pub mod Types
pub mod Codec
pub mod Values
pub mod Cursor
pub mod Writer
pub mod Environment
pub mod Encode
pub mod Operation
pub mod Primitives
pub mod Crypto
mod Tests
