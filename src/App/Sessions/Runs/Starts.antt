-- ===== src/App/Sessions/Runs/Starts.antt =====
-- The starts of a session's flow, flutter/rust/src/api/session.rs, and how the steps of the flow,
-- flows.rs, keep their number.
use worddrop.Base.{
  ℕ, suc, ◌+◌, ◌≤◌, ◌≡◌, refl, sym, true, List, [], ◌∷◌, ◌++◌, Text, All, false-ne-true,
  if◌then◌else◌, arith,
}
use worddrop.Base.Table.{nat_eq}
use worddrop.App.Flows.{
  FlowStep, transits, emits, prepares, prepare_fails, gets_offer, transfers, finishes, is_cancelled,
  fails, stops, closes, is_running, close, prepare_failed, prepared, offered, go_on, flow,
}
use worddrop.App.Sessions.{
  SessionRole, sender, receiver, Stage, idle, awaiting_peer, offer_pending, transferring, terminal,
  Ending, not_prepared, other, FlowPhase, running, ending, ended, SessionCommand, prepare, claim,
  accept, decline, cancel, SessionState, is_sender, is_idle, fresh, cancel_flow, finish_failed,
}
use worddrop.App.Sessions.Runs.{either}

-- The commands that start a flow.
abbrev pub starts : List SessionCommand → ℕ
starts [] = 0
starts (prepare paths ∷ cs) = suc (starts cs)
starts (claim code ∷ cs) = suc (starts cs)
starts (accept dir ∷ cs) = starts cs
starts (decline reason ∷ cs) = starts cs
starts (cancel ∷ cs) = starts cs

-- A command that a session of the role may get.
abbrev pub Fits : SessionRole → SessionCommand → Type 0
Fits sender (prepare paths) = Unit
Fits sender cancel = Unit
Fits sender (claim code) = ⊥
Fits sender (accept dir) = ⊥
Fits sender (decline reason) = ⊥
Fits receiver (prepare paths) = ⊥
Fits receiver cancel = Unit
Fits receiver (claim code) = Unit
Fits receiver (accept dir) = Unit
Fits receiver (decline reason) = Unit

-- The starts that a stage lets through.
abbrev pub startable : Stage → ℕ
startable idle = 1
startable awaiting_peer = 0
startable offer_pending = 0
startable transferring = 0
startable terminal = 0

-- The starts that a flow may be sent: two for a sender whose preparation failed.
abbrev pub allowed_for : SessionRole → Ending → ℕ
allowed_for sender not_prepared = 2
allowed_for sender other = 1
allowed_for receiver e = 1

abbrev pub allowed : SessionRole → FlowPhase → ℕ
allowed role running = 1
allowed role (ending e) = allowed_for role e
allowed role (ended e) = allowed_for role e

-- The starts that were sent, and one more if the stage is idle, are at most those allowed; every
-- command is one of the role.
pub record IsOrdered (s : SessionState) : Type 0 where
  pub few : starts s.commands + startable s.stage ≤ allowed s.role s.flow
  pub fitting : All (Fits s.role) s.commands

pub starts-append : (cs ds : List SessionCommand) → starts (cs ++ ds) ≡ starts cs + starts ds
starts-append [] ds = omega arith
starts-append (prepare paths ∷ cs) ds = omega (arith, starts-append cs ds)
starts-append (claim code ∷ cs) ds = omega (arith, starts-append cs ds)
starts-append (accept dir ∷ cs) ds = starts-append cs ds
starts-append (decline reason ∷ cs) ds = starts-append cs ds
starts-append (cancel ∷ cs) ds = starts-append cs ds

pub fresh-IsOrdered : (role : SessionRole) → IsOrdered (fresh role)
fresh-IsOrdered role = record { few = omega arith; fitting = tt }

pub idle_lem : (stage : Stage) → is_idle stage ≡ true → startable stage ≡ 1
idle_lem idle h = refl
idle_lem awaiting_peer h = absurd (false-ne-true h)
idle_lem offer_pending h = absurd (false-ne-true h)
idle_lem transferring h = absurd (false-ne-true h)
idle_lem terminal h = absurd (false-ne-true h)

pub running_allowed :
    (role : SessionRole) (p : FlowPhase) → is_running p ≡ true → allowed role p ≡ 1
running_allowed role running h = refl
running_allowed role (ending e) h = absurd (false-ne-true h)
running_allowed role (ended e) h = absurd (false-ne-true h)

other_allowed : (role : SessionRole) → allowed_for role other ≡ 1
other_allowed sender = refl
other_allowed receiver = refl

failed_allowed : (role : SessionRole) → is_sender role ≡ true → allowed_for role not_prepared ≡ 2
failed_allowed sender h = refl
failed_allowed receiver h = absurd (false-ne-true h)

-- A flow that runs and ends, its preparation not having failed, may be sent as many starts.
ends_lem :
    (s : SessionState)
    → is_running s.flow ≡ true
    → allowed s.role s.flow ≤ allowed s.role (ending other)
ends_lem s r = omega (arith, running_allowed s.role s.flow r, other_allowed s.role)

-- A step to a stage that is not idle, with no fewer starts allowed.
pub busy :
    (stage : Stage) (p : FlowPhase) (s : SessionState)
    → startable stage ≡ 0
    → allowed s.role s.flow ≤ allowed s.role p
    → IsOrdered s
    → IsOrdered (record s { stage = stage; flow = p })
busy stage p s none_left more h = record {
  few = omega (arith, none_left, more, h.few);
  fitting = h.fitting;
}

failed-IsOrdered :
    (e : Text) (s : SessionState)
    → is_running s.flow ≡ true
    → is_sender s.role ≡ true
    → IsOrdered s
    → IsOrdered (prepare_failed e s)
failed-IsOrdered e s r is h = record {
  few = omega (arith, running_allowed s.role s.flow r, failed_allowed s.role is, h.few);
  fitting = h.fitting;
}

close_lem :
    (role : SessionRole) (p : FlowPhase)
    → allowed role p
      ≡ allowed role (elim p [ running ↦ ended other | ending e ↦ ended e | ended e ↦ ended e ])
close_lem role running = sym (other_allowed role)
close_lem role (ending e) = refl
close_lem role (ended e) = refl

closed-IsOrdered : (s : SessionState) → IsOrdered s → IsOrdered (close s)
closed-IsOrdered s h = record {
  few = omega (arith, close_lem s.role s.flow, h.few);
  fitting = h.fitting;
}

-- What a flow that runs does, for the same session with other events.
go_on-IsOrdered :
    (f : FlowStep) (s : SessionState)
    → is_running s.flow ≡ true
    → IsOrdered s
    → IsOrdered (go_on f s)
unfolding cancel_flow finish_failed
go_on-IsOrdered (transits event) s r h = record { few = h.few; fitting = h.fitting }
go_on-IsOrdered (emits e) s r h = record { few = h.few; fitting = h.fitting }
go_on-IsOrdered prepares s r h =
    either IsOrdered (is_sender s.role) (prepared s) s
      (λ e. busy awaiting_peer s.flow s refl (omega arith) h) λ e. h
go_on-IsOrdered (prepare_fails e) s r h =
    either IsOrdered (is_sender s.role) (prepare_failed e s) s (λ is. failed-IsOrdered e s r is h)
      λ is. h
go_on-IsOrdered gets_offer s r h =
    either IsOrdered (is_sender s.role) s (offered s) (λ e. h)
      λ e. busy offer_pending s.flow s refl (omega arith) h
go_on-IsOrdered transfers s r h = busy transferring s.flow s refl (omega arith) h
go_on-IsOrdered finishes s r h = busy terminal (ending other) s refl (ends_lem s r) h
go_on-IsOrdered is_cancelled s r h = record {
  few = omega (arith, ends_lem s r, h.few);
  fitting = h.fitting;
}
go_on-IsOrdered fails s r h = record {
  few = omega (arith, ends_lem s r, h.few);
  fitting = h.fitting;
}
go_on-IsOrdered stops s r h = record {
  few = omega (arith, ends_lem s r, h.few);
  fitting = h.fitting;
}
go_on-IsOrdered closes s r h = closed-IsOrdered s h

going-IsOrdered :
    (f : FlowStep) (s : SessionState)
    → IsOrdered s
    → IsOrdered (if is_running s.flow then go_on f s else s)
going-IsOrdered f s h =
    either IsOrdered (is_running s.flow) (go_on f s) s (λ r. go_on-IsOrdered f s r h) λ r. h

pub flow-IsOrdered : (f : FlowStep) (s : SessionState) → IsOrdered s → IsOrdered (flow f s)
flow-IsOrdered closes s h = closed-IsOrdered s h
flow-IsOrdered (transits event) s h = going-IsOrdered (transits event) s h
flow-IsOrdered (emits e) s h = going-IsOrdered (emits e) s h
flow-IsOrdered prepares s h = going-IsOrdered prepares s h
flow-IsOrdered (prepare_fails e) s h = going-IsOrdered (prepare_fails e) s h
flow-IsOrdered gets_offer s h = going-IsOrdered gets_offer s h
flow-IsOrdered transfers s h = going-IsOrdered transfers s h
flow-IsOrdered finishes s h = going-IsOrdered finishes s h
flow-IsOrdered is_cancelled s h = going-IsOrdered is_cancelled s h
flow-IsOrdered fails s h = going-IsOrdered fails s h
flow-IsOrdered stops s h = going-IsOrdered stops s h
