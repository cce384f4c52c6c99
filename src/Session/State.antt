-- ===== src/Session/State.antt =====
-- The phases of a session, crates/core/src/session/state.rs.
pub mod Paths
use worddrop.Base.{Bool, true, false, Text, codes, Result, ok, err}

pub data SessionPhase : Type 0 where
  created pending_pair paired transferring done cancelled failed : SessionPhase

pub data Transition : Type 0 where
  start_pairing pair_confirmed transfer_started completed cancelled failed : Transition

pub record TransitionError : Type 0 where
  pub from : SessionPhase
  pub event : Transition

-- `is_terminal`
unfoldable pub is_terminal : SessionPhase → Bool
is_terminal done = true
is_terminal SessionPhase.cancelled = true
is_terminal SessionPhase.failed = true
is_terminal _ = false

-- `SessionPhase::transition`
unfoldable pub transition : SessionPhase → Transition → Result TransitionError SessionPhase
transition created start_pairing = ok pending_pair
transition pending_pair pair_confirmed = ok paired
transition paired transfer_started = ok transferring
transition transferring completed = ok done
transition created Transition.cancelled = ok SessionPhase.cancelled
transition pending_pair Transition.cancelled = ok SessionPhase.cancelled
transition paired Transition.cancelled = ok SessionPhase.cancelled
transition transferring Transition.cancelled = ok SessionPhase.cancelled
transition created Transition.failed = ok SessionPhase.failed
transition pending_pair Transition.failed = ok SessionPhase.failed
transition paired Transition.failed = ok SessionPhase.failed
transition transferring Transition.failed = ok SessionPhase.failed
transition from event = err (record { from = from; event = event })

-- `Display` of a phase.
unfoldable pub phase_name : SessionPhase → Text
phase_name created = codes "created"
phase_name pending_pair = codes "pending_pair"
phase_name paired = codes "paired"
phase_name transferring = codes "transferring"
phase_name done = codes "done"
phase_name SessionPhase.cancelled = codes "cancelled"
phase_name SessionPhase.failed = codes "failed"

-- `event_name`
unfoldable pub event_name : Transition → Text
event_name start_pairing = codes "start_pairing"
event_name pair_confirmed = codes "pair_confirmed"
event_name transfer_started = codes "transfer_started"
event_name completed = codes "completed"
event_name Transition.cancelled = codes "cancelled"
event_name Transition.failed = codes "failed"
