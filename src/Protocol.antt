-- ===== src/Protocol.antt =====
-- The wire format: crates/core/src/protocol.
pub mod Bytes
pub mod Wire
