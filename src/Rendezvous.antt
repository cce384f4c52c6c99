-- ===== src/Rendezvous.antt =====
-- The rendezvous server: crates/rendezvous/src.
pub mod Nameplate
pub mod Mailbox
pub mod RateLimiter
pub mod Api
