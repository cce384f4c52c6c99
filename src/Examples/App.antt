-- ===== src/Examples/App.antt =====
-- A sender's session of the app that is created, started, and disposed of while another one lives; and
-- one whose preparation fails, and that is started again while its flow ends.
use worddrop.Base.{◌≡◌, refl, none, some, List, [], ◌∷◌, codes, ok, err, arith}
use worddrop.Base.Table.{lookup, insert, nat_eq}
use worddrop.App.Sessions.{
  sender, receiver, made, prepare, awaiting_peer, not_prepared, ended, SessionState, fresh, find,
  create_session, send_paths, dispose_session,
}
use worddrop.App.Sessions.Runs.{Op, create, send, dispose, flow_op, step, run, empty_registry}
use worddrop.App.Events.{error_event}
use worddrop.App.Flows.{prepare_fails, closes}
use worddrop.App.Sessions.Runs.Order.{StartsInOrder, commands-StartsInOrder}
use worddrop.App.Sessions.Runs.Disposal.{disposed_for_good}

abbrev before : List Op
before =
    create sender made
    ∷ create receiver made
    ∷ send 1 (codes "a" ∷ []) (some (ok tt))
    ∷ send 1 (codes "b" ∷ []) (some (ok tt))
    ∷ []

ended_lem : (dispose_session 1 (run before empty_registry)).0 ≡ ok tt
unfolding run step create_session send_paths find lookup insert dispose_session
ended_lem = refl

abbrev after : List Op
after = create sender made ∷ send 1 (codes "a" ∷ []) none ∷ dispose 2 ∷ []

disposed_for_good_example :
    find 1 (run after (dispose_session 1 (run before empty_registry)).1)
    ≡ err (codes "unknown session handle")
disposed_for_good_example = disposed_for_good before after 1 (omega arith) ended_lem

abbrev retry : List Op
retry =
    create sender made
    ∷ send 1 (codes "a" ∷ []) (some (err (codes "no file")))
    ∷ flow_op 1 (prepare_fails (codes "no file"))
    ∷ send 1 (codes "b" ∷ []) none
    ∷ flow_op 1 closes
    ∷ send 1 (codes "c" ∷ []) none
    ∷ []

abbrev retried : SessionState
retried = record (fresh sender) {
  stage = awaiting_peer;
  flow = ended not_prepared;
  commands = prepare (codes "a" ∷ []) ∷ prepare (codes "b" ∷ []) ∷ [];
  events = error_event (codes "no file") ∷ [];
}

retried_lem : lookup 1 (run retry empty_registry).sessions ≡ some retried
unfolding run step create_session send_paths find lookup insert
retried_lem = refl

commands-StartsInOrder_example : StartsInOrder retried
commands-StartsInOrder_example = commands-StartsInOrder retry 1 retried retried_lem
