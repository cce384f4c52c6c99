-- ===== src/Session.antt =====
-- `Session`, its phase and its cancellation channel: crates/core/src/session.rs. The phase stands
-- behind a lock that `transition` holds for its whole body; `cancel` sends on the channel after it
-- has let go of the lock, so the two halves of a cancel are separate steps.
pub mod State
pub mod Control
pub mod Cancel
use worddrop.Base.{Bool, true, false, Result, ok, err, Option, none, some}
use worddrop.Session.State.{SessionPhase, created, Transition, TransitionError, transition}

pub record Session : Type 0 where
  pub phase : SessionPhase
  pub cancel_tx : Bool

-- `Session::new`
abbrev pub new : Session
new = record { phase = created; cancel_tx = false }

abbrev pub store_phase :
    Session → Result TransitionError SessionPhase → Result TransitionError SessionPhase × Session
store_phase s (err e) = (err e, s)
store_phase s (ok next) = (ok next, record s { phase = next })

-- `Session::transition`
unfoldable pub apply : Session → Transition → Result TransitionError SessionPhase × Session
apply s event = store_phase s (transition s.phase event)

-- The send on the channel that follows the transition of `cancel`.
abbrev pub signal : Session → Session
signal s = record s { cancel_tx = true }

abbrev pub finish_cancel :
    Result TransitionError SessionPhase × Session → Result TransitionError SessionPhase × Session
finish_cancel (err e, s) = (err e, s)
finish_cancel (ok next, s) = (ok next, signal s)

-- `Session::cancel`, with nothing in between its halves.
unfoldable pub cancel : Session → Result TransitionError SessionPhase × Session
cancel s = finish_cancel (apply s Transition.cancelled)

-- `CancelWatcher::is_cancelled`, of a watcher of this session.
unfoldable pub is_cancelled : Session → Bool
is_cancelled s = s.cancel_tx

pub data Race (T : Type 0) : Type 0 where
  value : T → Race T
  cancelled : Race T

-- `race`: `none` is a future that is not ready while nobody has cancelled, so that `race` waits.
unfoldable pub race : {T : Type 0} → Session → Option T → Option (Race T)
race s future = elim (is_cancelled s) [
  | true ↦ some cancelled
  | false ↦ elim future [ none ↦ none | some v ↦ some (value v) ]
]
