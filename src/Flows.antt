-- ===== src/Flows.antt =====
-- The flows of the command line, crates/cli/src/send and crates/cli/src/receive.rs: the pairing, the
-- control messages and the session of each peer put together.
pub mod Talk
pub mod Send
pub mod Receive
pub mod Agreement
