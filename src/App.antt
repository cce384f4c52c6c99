-- ===== src/App.antt =====
-- The bindings of the app, flutter/rust/src/api.
pub mod Events
pub mod Sessions
pub mod Flows
