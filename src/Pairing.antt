-- ===== src/Pairing.antt =====
-- The pairing of two peers: crates/core/src/pairing.
pub mod Wordlist
pub mod WordCode
pub mod Handshake
pub mod Spake
pub mod Exchange
