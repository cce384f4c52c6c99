-- ===== src/Transfer.antt =====
-- Transfers, crates/core/src/transfer.
pub mod Files
pub mod Record
pub mod Target
pub mod Progress
pub mod Receive
pub mod Send
