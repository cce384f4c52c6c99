-- ===== src/Session/Cancel.antt =====
-- The interleavings of crates/core/src/session.rs: a canceller changes the phase under the lock,
-- lets go of it, and signals the channel later.
use worddrop.Base.{
  ℕ, suc, ◌+◌, ◌≤◌, ◌≡◌, Bool, true, false, Option, some, ok, err, arith, if◌then◌else◌,
}
use worddrop.Session.State.{SessionPhase, Transition, TransitionError, transition, is_terminal}
use worddrop.Session.{Session, new, apply, signal, cancel, is_cancelled, cancelled, race}

-- The session, and how many cancellers have still to signal.
pub record System : Type 0 where
  pub session : Session
  pub unsent : ℕ

abbrev pub start : System
start = record { session = new; unsent = 0 }

pub data Step : System → System → Type 0 where
  event :
      (s : System) (e : Transition) (q : SessionPhase)
      → (apply s.session e).0 ≡ ok q
      → Step s (record s { session = (apply s.session e).1 })
  cancel_begun :
      (s : System) (q : SessionPhase)
      → (apply s.session Transition.cancelled).0 ≡ ok q
      → Step s
          (record { session = (apply s.session Transition.cancelled).1; unsent = suc s.unsent })
  cancel_sent :
      (s : Session) (n : ℕ)
      → Step (record { session = s; unsent = suc n }) (record { session = signal s; unsent = n })

pub data Reach : System → Type 0 where
  here : Reach start
  next : {s t : System} → Reach s → Step s t → Reach t

abbrev sent : Bool → ℕ
sent true = 1
sent false = 0

record IsSafe (s : System) : Type 0 where
  once : s.unsent + sent s.session.cancel_tx ≤ 1
  phase_cancelled :
      s.unsent + sent s.session.cancel_tx ≡ 1 → s.session.phase ≡ SessionPhase.cancelled

Step-IsSafe : {s t : System} → Step s t → IsSafe s → IsSafe t
unfolding apply transition
Step-IsSafe (event s e q h) v = ground arith
Step-IsSafe (cancel_begun s q h) v = ground arith
Step-IsSafe (cancel_sent s n) v = ground arith

IsSafe-start : IsSafe start
IsSafe-start = ground arith

Reach-IsSafe : {s : System} → Reach s → IsSafe s
Reach-IsSafe here = IsSafe-start
Reach-IsSafe (next r st) = Step-IsSafe st (Reach-IsSafe r)

refused :
    (s : Session) (e : Transition)
    → s.phase ≡ SessionPhase.cancelled
    → apply s e ≡ (err (record { from = s.phase; event = e }), s)
unfolding apply transition
refused s e h = ground arith

-- In every interleaving of transitions and of cancellers that signal late, when the channel says
-- cancelled, the session's phase is `cancelled`, every event is refused and changes nothing, and
-- `race` gives the cancellation even if the future is ready.
pub signalled_for_good :
    {s : System} (e : Transition) {T : Type 0} (future : Option T)
    → Reach s
    → is_cancelled s.session ≡ true
    → (s.session.phase ≡ SessionPhase.cancelled)
      × (apply s.session e ≡ (err (record { from = s.session.phase; event = e }), s.session))
      × (race s.session future ≡ some cancelled)
unfolding is_cancelled race
signalled_for_good {s} e future r h =
    let v = Reach-IsSafe r in
    let phase : s.session.phase ≡ SessionPhase.cancelled =
      v.phase_cancelled (ground (arith, v.once)) in
    (phase, refused s.session e phase, rw h)

-- `cancel` on a session that is not terminal makes it cancelled and wins every race; on a terminal
-- one it is refused, and the session stays as it was, for every race too.
cancel_lem :
    (s : Session) {T : Type 0} (future : Option T)
    → let refusal : TransitionError = record { from = s.phase; event = Transition.cancelled } in
      ((cancel s).0 ≡ (if is_terminal s.phase then err refusal else ok SessionPhase.cancelled))
      × ((cancel s).1.phase ≡ (if is_terminal s.phase then s.phase else SessionPhase.cancelled))
      × (race (cancel s).1 future ≡ (if is_terminal s.phase then race s future else some cancelled))
unfolding cancel apply transition is_terminal race is_cancelled
cancel_lem s future = ground arith
