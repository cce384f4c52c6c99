-- ===== src/App/Sessions.antt =====
-- The sessions of the app, flutter/rust/src/api/session.rs. A call is one step: the commands that it
-- sends, and the flow's reply as an argument, `none` if the flow drops it. What else a flow does to
-- its session are the steps of Flows. The locks of the stages are not poisoned.
pub mod Runs
use worddrop.Base.{
  ℕ, ◌+◌, ◌%◌, ◌^◌, Bool, true, false, not, ◌&&◌, List, [], ◌∷◌, ◌++◌, length, Option, none, some,
  Text, codes, Result, ok, err, if◌then◌else◌,
}
use worddrop.Base.Table.{Table, lookup, insert, remove, nat_eq}
use worddrop.App.Events.{BridgeEvent, phase_event, cancelled_event}
use worddrop.Session
use worddrop.Session.{Session}
use worddrop.Session.State.{phase_name, failed}

pub data SessionRole : Type 0 where
  sender receiver : SessionRole

pub data Stage : Type 0 where
  idle awaiting_peer offer_pending transferring terminal : Stage

-- `SessionCommand`, without the channel of the reply.
pub data SessionCommand : Type 0 where
  prepare : List Text → SessionCommand
  claim accept decline : Text → SessionCommand
  cancel : SessionCommand

-- Why a flow ends: its preparation failed, or another reason.
pub data Ending : Type 0 where
  not_prepared other : Ending

-- How far a flow is: `ending` awaits the shutdown of its engine, and takes no more commands, with
-- their channel open; `ended` has closed the channel.
pub data FlowPhase : Type 0 where
  running : FlowPhase
  ending ended : Ending → FlowPhase

-- `SessionState`: also the phase of its flow, the commands that it got, and the events.
pub record SessionState : Type 0 where
  pub role : SessionRole
  pub session : Session
  pub stage : Stage
  pub flow : FlowPhase
  pub commands : List SessionCommand
  pub events : List BridgeEvent

-- `SESSIONS` and `NEXT_ID`
pub record Registry : Type 0 where
  pub sessions : Table ℕ SessionState
  pub next_id : ℕ
  pub is_poisoned : Bool

-- How `build_session` ends: refused before it draws an id, failed after it, or made.
pub data Build : Type 0 where
  refused build_failed : Text → Build
  made : Build

abbrev pub is_sender : SessionRole → Bool
is_sender sender = true
is_sender receiver = false

abbrev pub is_idle : Stage → Bool
is_idle idle = true
is_idle _ = false

abbrev pub is_offer_pending : Stage → Bool
is_offer_pending offer_pending = true
is_offer_pending _ = false

abbrev pub is_terminal : Stage → Bool
is_terminal terminal = true
is_terminal _ = false

-- `live_session_count`
unfoldable pub live_session_count : Registry → Option ℕ
live_session_count r = if r.is_poisoned then none else some (length r.sessions)

abbrev pub found : Option SessionState → Result Text SessionState
found none = err (codes "unknown session handle")
found (some s) = ok s

-- `lookup`
unfoldable pub find : ℕ → Registry → Result Text SessionState
find id r =
    if r.is_poisoned then err (codes "session registry poisoned") else found (lookup id r.sessions)

abbrev pub fresh : SessionRole → SessionState
fresh role = record {
  role = role;
  session = Session.new;
  stage = idle;
  flow = running;
  commands = [];
  events = [];
}

-- `fetch_add`
abbrev pub after_draw : Registry → Registry
after_draw r = record r { next_id = (r.next_id + 1) % 2 ^ 64 }

abbrev pub register : SessionRole → Registry → Result Text ℕ × Registry
register role r =
    if r.is_poisoned then (err (codes "session registry poisoned"), after_draw r) else (
      ok r.next_id,
      record (after_draw r) { sessions = insert r.next_id (fresh role) r.sessions },
    )

-- `create_session` and `build_session`
unfoldable pub create_session : SessionRole → Build → Registry → Result Text ℕ × Registry
create_session role (refused e) r = (err e, r)
create_session role (build_failed e) r = (err e, after_draw r)
create_session role made r = register role r

abbrev pub put : ℕ → SessionState → Registry → Registry
put id s r = record r { sessions = insert id s r.sessions }

abbrev pub kept {ℓ} :
    {A : Type ℓ} → ℕ → Registry → Result Text A × SessionState → Result Text A × Registry
kept id r (answer, s) = (answer, put id s r)

-- A call on a session that is looked up.
abbrev pub on_session {ℓ} :
    {A : Type ℓ}
    → ℕ
    → (SessionState → Result Text A × SessionState)
    → Registry
    → Result Text SessionState
    → Result Text A × Registry
on_session id call r (err e) = (err e, r)
on_session id call r (ok s) = kept id r (call s)

abbrev pub replied {ℓ} : {A : Type ℓ} → Option (Result Text A) → Result Text A
replied none = err (codes "session closed")
replied (some answer) = answer

-- A command that is put into the channel, with the answer.
abbrev pub queue {ℓ} :
    {A : Type ℓ} → SessionCommand → Result Text A → SessionState → Result Text A × SessionState
queue command answer s = (answer, record s { commands = s.commands ++ command ∷ [] })

-- A command to a flow in a phase, and the wait for its reply. One that is queued while the flow ends
-- is dropped with the channel, and with it the channel of its reply.
abbrev pub send_in {ℓ} :
    {A : Type ℓ}
    → FlowPhase
    → SessionCommand
    → Option (Result Text A)
    → SessionState
    → Result Text A × SessionState
send_in running command reply s = queue command (replied reply) s
send_in (ending e) command reply s = queue command (replied none) s
send_in (ended e) command reply s = (err (codes "session closed"), s)

abbrev pub send_command {ℓ} :
    {A : Type ℓ}
    → SessionCommand
    → Option (Result Text A)
    → SessionState
    → Result Text A × SessionState
send_command command reply s = send_in s.flow command reply s

abbrev pub start_send {ℓ} :
    {A : Type ℓ} → List Text → Option (Result Text A) → SessionState → Result Text A × SessionState
start_send paths reply s =
    if is_sender s.role && is_idle s.stage
    then send_command (prepare paths) reply (record s { stage = awaiting_peer })
    else (err (codes "send_paths requires a fresh sender session"), s)

-- `send_paths`
unfoldable pub send_paths {ℓ} :
    {A : Type ℓ} → ℕ → List Text → Option (Result Text A) → Registry → Result Text A × Registry
send_paths id paths reply r = on_session id (start_send paths reply) r (find id r)

abbrev pub start_receive {ℓ} :
    {A : Type ℓ} → Text → Option (Result Text A) → SessionState → Result Text A × SessionState
start_receive code reply s =
    if not (is_sender s.role) && is_idle s.stage
    then send_command (claim code) reply (record s { stage = offer_pending })
    else (err (codes "receive_ticket requires a fresh receiver session"), s)

-- `receive_ticket`
unfoldable pub receive_ticket {ℓ} :
    {A : Type ℓ} → ℕ → Text → Option (Result Text A) → Registry → Result Text A × Registry
receive_ticket id code reply r = on_session id (start_receive code reply) r (find id r)

abbrev pub answer_offer :
    SessionCommand
    → Text
    → Option (Result Text (Unit {0}))
    → SessionState
    → Result Text (Unit {0}) × SessionState
answer_offer command refusal reply s =
    if not (is_sender s.role) && is_offer_pending s.stage
    then send_command command reply s
    else (err refusal, s)

-- `accept_offer`
unfoldable pub accept_offer :
    ℕ → Text → Option (Result Text (Unit {0})) → Registry → Result Text (Unit {0}) × Registry
accept_offer id target_dir reply r =
    on_session id
      (answer_offer (accept target_dir)
        (codes "accept_offer requires a receiver session with a pending offer") reply)
      r (find id r)

-- `decline_offer`
unfoldable pub decline_offer :
    ℕ → Text → Option (Result Text (Unit {0})) → Registry → Result Text (Unit {0}) × Registry
decline_offer id reason reply r =
    on_session id
      (answer_offer (decline reason)
        (codes "decline_offer requires a receiver session with a pending offer") reply)
      r (find id r)

abbrev pub ask_cancel :
    Option (Result Text (Unit {0})) → SessionState → Result Text (Unit {0}) × SessionState
ask_cancel reply s = if is_terminal s.stage then (ok tt, s) else send_command cancel reply s

-- `cancel_session`
unfoldable pub cancel_session :
    ℕ → Option (Result Text (Unit {0})) → Registry → Result Text (Unit {0}) × Registry
cancel_session id reply r = on_session id (ask_cancel reply) r (find id r)

abbrev pub removed : ℕ → Registry → Option SessionState → Result Text (Unit {0}) × Registry
removed id r none = (err (codes "unknown session handle"), r)
removed id r (some s) = (ok tt, record r { sessions = remove id r.sessions })

-- `dispose_session`
unfoldable pub dispose_session : ℕ → Registry → Result Text (Unit {0}) × Registry
dispose_session id r =
    if r.is_poisoned
    then (err (codes "session registry poisoned"), r)
    else removed id r (lookup id r.sessions)

-- `session_phase`
unfoldable pub session_phase : ℕ → Registry → Result Text Text
session_phase id r = elim (find id r) [ err e ↦ err e | ok s ↦ ok (phase_name s.session.phase) ]

-- `cancel_flow`
unfoldable pub cancel_flow : SessionState → SessionState
cancel_flow s = record s {
  session = (Session.cancel s.session).1;
  events = s.events ++ phase_event (codes "cancelled") ∷ cancelled_event ∷ [];
  stage = terminal;
}

-- `finish_failed`
unfoldable pub finish_failed : SessionState → SessionState
finish_failed s = record s {
  session = (Session.apply s.session failed).1;
  events = s.events ++ phase_event (codes "failed") ∷ [];
  stage = terminal;
}
