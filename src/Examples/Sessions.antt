-- ===== src/Examples/Sessions.antt =====
-- The phases of a session, and a cancel that races with it.
use worddrop.Base.{◌≤◌, ◌≡◌, ◌⊎◌, refl, true, false, List, [], ◌∷◌, some, err, length}
use worddrop.Session.State.{
  SessionPhase, created, pending_pair, paired, transferring, done, Transition, start_pairing,
  pair_confirmed, transfer_started, completed, transition,
}
use worddrop.Session.State.Paths.{Accepted, is_done, path_to_done}
use worddrop.Session.{Session, new, apply, signal, is_cancelled, cancelled, race}
use worddrop.Session.Cancel.{
  System, start, cancel_begun, cancel_sent, Reach, here, next, signalled_for_good,
}

abbrev whole : List Transition
whole = start_pairing ∷ pair_confirmed ∷ transfer_started ∷ completed ∷ []

whole-Accepted : Accepted created whole done
unfolding transition
whole-Accepted = (pending_pair, refl, (paired, refl, (transferring, refl, (done, refl, refl))))

path_to_done_example :
    (length whole ≤ 4)
    × ((is_done done ≡ false)
        ⊎ (whole ≡ start_pairing ∷ pair_confirmed ∷ transfer_started ∷ completed ∷ []))
path_to_done_example = path_to_done done whole whole-Accepted

abbrev cancelled_session : Session
cancelled_session = (apply new Transition.cancelled).1

abbrev signalled : System
signalled = record { session = signal cancelled_session; unsent = 0 }

signalled-Reach : Reach signalled
unfolding apply transition
signalled-Reach =
    next (next here (cancel_begun start SessionPhase.cancelled refl))
      (cancel_sent cancelled_session 0)

signalled_for_good_example :
    (signalled.session.phase ≡ SessionPhase.cancelled)
    × (apply signalled.session start_pairing ≡ (
      err (record { from = signalled.session.phase; event = start_pairing }),
      signalled.session,
    ))
    × (race signalled.session (some true) ≡ some cancelled)
unfolding is_cancelled
signalled_for_good_example =
    signalled_for_good {s = signalled} start_pairing (some true) signalled-Reach refl
