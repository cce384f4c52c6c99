-- ===== src/App/Sessions/Runs/Order.antt =====
-- The commands that a session of the app gets, flutter/rust/src/api/session.rs and flows.rs.
use worddrop.Base.{
  ℕ, ◌+◌, ◌≤◌, ◌≡◌, refl, sym, Bool, true, not, ◌&&◌, &&_split, List, [], ◌∷◌, none, some, Text,
  Result, err, All, All-append, false-ne-true, none-ne-some, if◌then◌else◌, arith, false, ◌⊎◌,
  Bool-cases, inl, inr, codes,
}
use worddrop.Base.Table.{lookup, nat_eq}
use worddrop.App.Flows.{is_running}
use worddrop.App.Sessions.{
  SessionRole, sender, receiver, Stage, awaiting_peer, offer_pending, FlowPhase, running, ending,
  ended, SessionCommand, prepare, claim, accept, decline, cancel, SessionState, is_sender, is_idle,
  replied, queue, send_in, send_command, start_send, start_receive, is_terminal,
}
use worddrop.App.Sessions.Runs.{Reply, Op, run, empty_registry, Kept, run-Everywhere, either}
use worddrop.App.Sessions.Runs.Starts.{
  starts, Fits, startable, allowed, IsOrdered, starts-append, fresh-IsOrdered, idle_lem,
  running_allowed, flow-IsOrdered,
}

-- A command that is queued, if the stage has room for it.
queued-IsOrdered :
    (c : SessionCommand) (answer : Result Text (Unit {0})) (s : SessionState)
    → Fits s.role c
    → starts s.commands + starts (c ∷ []) + startable s.stage ≤ allowed s.role s.flow
    → All (Fits s.role) s.commands
    → IsOrdered (queue c answer s).1
queued-IsOrdered c answer s fits few fitting = record {
  few = rw (starts-append s.commands (c ∷ [])) few;
  fitting = All-append (Fits s.role) s.commands (c ∷ []) fitting (fits, tt);
}

sent-IsOrdered :
    (p : FlowPhase) (c : SessionCommand) (reply : Reply) (s : SessionState)
    → Fits s.role c
    → starts s.commands + starts (c ∷ []) + startable s.stage ≤ allowed s.role s.flow
    → All (Fits s.role) s.commands
    → IsOrdered (send_in p c reply s).1
sent-IsOrdered running c reply s fits few fitting =
    queued-IsOrdered c (replied reply) s fits few fitting
sent-IsOrdered (ending e) c reply s fits few fitting =
    queued-IsOrdered c (replied none) s fits few fitting
sent-IsOrdered (ended e) c reply s fits few fitting = record {
  few = omega (arith, few);
  fitting = fitting;
}

-- A command that does not start the flow.
later-IsOrdered :
    (c : SessionCommand) (reply : Reply) (s : SessionState)
    → IsOrdered s
    → Fits s.role c
    → starts (c ∷ []) ≡ 0
    → IsOrdered (send_command c reply s).1
later-IsOrdered c reply s h fits zeroed =
    sent-IsOrdered s.flow c reply s fits (omega (arith, zeroed, h.few)) h.fitting

-- A command that starts it, from the idle stage to one that is not.
first-IsOrdered :
    (c : SessionCommand) (reply : Reply) (stage : Stage) (s : SessionState)
    → IsOrdered s
    → is_idle s.stage ≡ true
    → startable stage ≡ 0
    → Fits s.role c
    → starts (c ∷ []) ≡ 1
    → IsOrdered (send_command c reply (record s { stage = stage })).1
first-IsOrdered c reply stage s h idling none_left fits one =
    sent-IsOrdered s.flow c reply (record s { stage = stage }) fits
      (omega (arith, one, none_left, idle_lem s.stage idling, h.few)) h.fitting

sender-Fits : (r : SessionRole) (paths : List Text) → is_sender r ≡ true → Fits r (prepare paths)
sender-Fits sender paths h = tt
sender-Fits receiver paths h = absurd (false-ne-true h)

receiver-Fits :
    (r : SessionRole) (t : Text)
    → not (is_sender r) ≡ true
    → Fits r (claim t) × Fits r (accept t) × Fits r (decline t)
receiver-Fits receiver t h = (tt, tt, tt)
receiver-Fits sender t h = absurd (false-ne-true h)

cancel-Fits : (r : SessionRole) → Fits r cancel
cancel-Fits sender = tt
cancel-Fits receiver = tt

guarded :
    (c : Bool) (x : Result Text (Unit {0}) × SessionState) (e : Text) (s : SessionState)
    → IsOrdered s
    → (c ≡ true → IsOrdered x.1)
    → IsOrdered (if c then x else (err e, s)).1
guarded c x e s h go =
    either (λ (x : Result Text (Unit {0}) × SessionState). IsOrdered x.1) c x (err e, s) go λ e. h

kept : Kept IsOrdered fresh-IsOrdered
kept = record {
  by_send = λ paths reply s h. guarded _ _ _ s h λ e.
      let (role, idling) = &&_split _ _ e in
      first-IsOrdered (prepare paths) reply awaiting_peer s h idling refl
        (sender-Fits s.role paths role) refl;
  by_receive = λ code reply s h. guarded _ _ _ s h λ e.
      let (role, idling) = &&_split _ _ e in
      first-IsOrdered (claim code) reply offer_pending s h idling refl
        (receiver-Fits s.role code role).0 refl;
  by_accept = λ dir refusal reply s h. guarded _ _ _ s h λ e.
      later-IsOrdered (accept dir) reply s h (receiver-Fits s.role dir (&&_split _ _ e).0).1 refl;
  by_decline = λ reason refusal reply s h. guarded _ _ _ s h λ e.
      later-IsOrdered (decline reason) reply s h (receiver-Fits s.role reason (&&_split _ _ e).0).2
        refl;
  by_cancel = λ reply s h.
      either (λ (x : Result Text (Unit {0}) × SessionState). IsOrdered x.1) (is_terminal s.stage) _
        _ (λ e. h) λ e. later-IsOrdered cancel reply s h (cancel-Fits s.role) refl;
  by_flow = flow-IsOrdered;
}

closed_lem :
    (p : FlowPhase) (c : SessionCommand) (reply : Reply) (s : SessionState)
    → is_running p ≡ false
    → (send_in p c reply s).0 ≡ err (codes "session closed")
closed_lem running c reply s h = absurd (false-ne-true (sym h))
closed_lem (ending e) c reply s h = refl
closed_lem (ended e) c reply s h = refl

-- A start of a session: none was sent before, or it is refused.
start_lem :
    (role : Bool) (c : SessionCommand) (stage : Stage) (refusal : Text) (reply : Reply)
    (s : SessionState)
    → IsOrdered s
    → (starts s.commands ≡ 0)
      ⊎ (e : Text) × ((if role && is_idle s.stage
            then send_command c reply (record s { stage = stage })
            else (err refusal, s)).0
          ≡ err e)
start_lem role c stage refusal reply s h = elim (Bool-cases (role && is_idle s.stage)) [
  | inr cannot ↦ inr (refusal, rw cannot refl)
  | inl can ↦ elim (Bool-cases (is_running s.flow)) [
    | inl r ↦ inl (
        omega
          (arith, idle_lem s.stage (&&_split _ _ can).1, running_allowed s.role s.flow r, h.few))
    | inr r ↦
        inr (
          codes "session closed",
          rw can (closed_lem s.flow c reply (record s { stage = stage }) r),
        )
  ]
]

-- What holds of a session: the order of its commands, and a start after another one is refused.
pub record StartsInOrder (s : SessionState) : Type 0 where
  pub ordered : IsOrdered s
  pub send_once :
      (paths : List Text) (reply : Reply)
      → (starts s.commands ≡ 0) ⊎ (e : Text) × ((start_send paths reply s).0 ≡ err e)
  pub receive_once :
      (code : Text) (reply : Reply)
      → (starts s.commands ≡ 0) ⊎ (e : Text) × ((start_receive code reply s).0 ≡ err e)

-- In every run of calls and of steps of the flows, from an empty registry, a session gets only
-- commands of its role. The flow of a receiver is told to start at most once, and that of a sender
-- too, but for one whose preparation failed: it may be told once more. A start that the stage still
-- lets through is counted too. And once a flow was told to start, every further start is an error,
-- also the second one of such a sender.
pub commands-StartsInOrder :
    (ops : List Op) (id : ℕ) (s : SessionState)
    → lookup id (run ops empty_registry).sessions ≡ some s
    → StartsInOrder s
unfolding lookup
commands-StartsInOrder ops id s there =
    let ordered : IsOrdered s =
      run-Everywhere IsOrdered fresh-IsOrdered kept ops empty_registry
        (λ k t h. absurd (none-ne-some h)) id s there in
    record {
      ordered = ordered;
      send_once = λ paths reply. start_lem _ _ _ _ reply s ordered;
      receive_once = λ code reply. start_lem _ _ _ _ reply s ordered;
    }
