-- ===== src/App/Flows.antt =====
-- What the two flows of the app do to their sessions, flutter/rust/src/api/flows.rs: that they
-- drive the session and emit events, where they set the stage, and how they end. What they do on
-- the way, over the network and on the disk, is left out.
use worddrop.Base.{Bool, true, false, [], ◌∷◌, ◌++◌, Text, if◌then◌else◌}
use worddrop.Session
use worddrop.Session.State.{Transition}
use worddrop.App.Events.{BridgeEvent, error_event}
use worddrop.App.Sessions.{
  idle, awaiting_peer, offer_pending, transferring, terminal, Ending, not_prepared, other,
  FlowPhase, running, ending, ended, SessionState, is_sender, cancel_flow, finish_failed,
}

-- A flow drives its session by an event of it, emits an event to the app, has prepared, fails to
-- prepare, has the offer, transfers, sets the terminal stage, is cancelled, fails, or leaves the
-- stage as it is and stops; and its channel closes.
pub data FlowStep : Type 0 where
  transits : Transition → FlowStep
  emits : BridgeEvent → FlowStep
  prepares : FlowStep
  prepare_fails : Text → FlowStep
  gets_offer transfers finishes is_cancelled fails stops closes : FlowStep

abbrev pub is_running : FlowPhase → Bool
is_running running = true
is_running _ = false

-- The end of a flow begins: the shutdown of the engine, and for a sender the release before it.
abbrev pub end_for : Ending → SessionState → SessionState
end_for e s = record s { flow = ending e }

-- The return from a flow, or its unwinding, drops the receiver of the commands.
abbrev pub close : SessionState → SessionState
close s = record s {
  flow = elim s.flow [ running ↦ ended other | ending e ↦ ended e | ended e ↦ ended e ];
}

abbrev pub emit : BridgeEvent → SessionState → SessionState
emit e s = record s { events = s.events ++ e ∷ [] }

-- The error of `drive_prepare` in `run_sender_flow`.
abbrev pub prepare_failed : Text → SessionState → SessionState
prepare_failed e s = end_for not_prepared (emit (error_event e) (record s { stage = idle }))

-- A sender's preparation is over.
abbrev pub prepared : SessionState → SessionState
prepared s = record s { stage = awaiting_peer }

-- A receiver's claim is over.
abbrev pub offered : SessionState → SessionState
offered s = record s { stage = offer_pending }

abbrev pub transfer_started : SessionState → SessionState
transfer_started s = record s { stage = transferring }

-- After the result, or a refusal.
abbrev pub finished : SessionState → SessionState
finished s = end_for other (record s { stage = terminal })

-- What a flow that runs does.
abbrev pub go_on : FlowStep → SessionState → SessionState
go_on (transits event) s = record s { session = (Session.apply s.session event).1 }
go_on (emits e) s = emit e s
go_on prepares s = if is_sender s.role then prepared s else s
go_on (prepare_fails e) s = if is_sender s.role then prepare_failed e s else s
go_on gets_offer s = if is_sender s.role then s else offered s
go_on transfers s = transfer_started s
go_on finishes s = finished s
go_on is_cancelled s = end_for other (cancel_flow s)
go_on fails s = end_for other (finish_failed s)
go_on stops s = end_for other s
go_on closes s = close s

-- A step of a flow, whatever it did before. One that ends only closes its channel.
abbrev pub flow : FlowStep → SessionState → SessionState
flow closes s = close s
flow f s = if is_running s.flow then go_on f s else s
