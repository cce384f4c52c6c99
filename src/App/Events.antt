-- ===== src/App/Events.antt =====
-- The events that a session of the app makes, flutter/rust/src/api/events.rs.
use worddrop.Base.{ℕ, [], Option, none, some, Text, codes}

-- `BridgeEvent`
pub record BridgeEvent : Type 0 where
  pub kind : Text
  pub phase : Option Text
  pub message : Option Text
  pub name : Option Text
  pub received : Option ℕ
  pub total : Option ℕ
  pub bytes : Option ℕ
  pub files : Option ℕ

-- `BridgeEvent::empty`
abbrev pub empty : BridgeEvent
empty = record {
  kind = [];
  phase = none;
  message = none;
  name = none;
  received = none;
  total = none;
  bytes = none;
  files = none;
}

abbrev pub phase_event : Text → BridgeEvent
phase_event phase = record empty { kind = codes "phase"; phase = some phase }

-- `BridgeEvent::error`
abbrev pub error_event : Text → BridgeEvent
error_event message = record empty { kind = codes "error"; message = some message }

abbrev pub cancelled_event : BridgeEvent
cancelled_event = record empty { kind = codes "cancelled" }
