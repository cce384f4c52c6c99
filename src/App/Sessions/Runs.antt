-- ===== src/App/Sessions/Runs.antt =====
-- Runs of the sessions of the app, flutter/rust/src/api/session.rs: calls, and steps of the flows.
pub mod Starts
pub mod Order
pub mod Disposal
use worddrop.Base.{
  ℕ, zero, suc, ◌+◌, ◌%◌, ◌^◌, ◌≤◌, ◌<◌, ◌≡◌, ◌≢◌, refl, ap, sym, subst, ◌∙◌, Bool, true, false,
  not, ◌&&◌, List, [], ◌∷◌, ◌++◌, Option, none, some, Text, codes, Result, ok, err, All, All-append,
  Bool-cases, Option-cases, inl, inr, ok_injective, none-ne-some, some_injective, err-ne-ok, ◌==◌,
  ==_iff, ==_self, if◌then◌else◌, arith,
}
use worddrop.Base.Table.{Table, lookup, insert, remove, lookup-insert, lookup-remove, nat_eq}
use worddrop.App.Flows.{FlowStep, flow}
use worddrop.App.Sessions.{
  SessionRole, sender, receiver, Stage, idle, awaiting_peer, offer_pending, transferring, terminal,
  SessionCommand, prepare, claim, accept, decline, cancel, SessionState, Registry, Build, refused,
  build_failed, made, is_sender, is_idle, find, found, fresh, register, create_session, put,
  on_session, send_command, start_send, send_paths, start_receive, receive_ticket, answer_offer,
  accept_offer, decline_offer, ask_cancel, cancel_session, removed, dispose_session, cancel_flow,
  finish_failed,
}

abbrev pub Reply : Type 0
Reply = Option (Result Text (Unit {0}))

pub data Op : Type 0 where
  create : SessionRole → Build → Op
  send : ℕ → List Text → Reply → Op
  receive accept_op decline_op : ℕ → Text → Reply → Op
  cancel_op : ℕ → Reply → Op
  dispose : ℕ → Op
  flow_op : ℕ → FlowStep → Op

abbrev pub flowed : ℕ → FlowStep → Registry → Option SessionState → Registry
flowed id f r none = r
flowed id f r (some s) = put id (flow f s) r

unfoldable pub step : Op → Registry → Registry
step (create role build) r = (create_session role build r).1
step (send id paths reply) r = (send_paths id paths reply r).1
step (receive id code reply) r = (receive_ticket id code reply r).1
step (accept_op id dir reply) r = (accept_offer id dir reply r).1
step (decline_op id reason reply) r = (decline_offer id reason reply r).1
step (cancel_op id reply) r = (cancel_session id reply r).1
step (dispose id) r = (dispose_session id r).1
step (flow_op id f) r = flowed id f r (lookup id r.sessions)

unfoldable pub run : List Op → Registry → Registry
run [] r = r
run (op ∷ ops) r = run ops (step op r)

abbrev pub empty_registry : Registry
empty_registry = record { sessions = []; next_id = 1; is_poisoned = false }

pub either {ℓ κ} :
    {A : Type ℓ} (Q : A → Type κ) (c : Bool) (x y : A)
    → (c ≡ true → Q x)
    → (c ≡ false → Q y)
    → Q (if c then x else y)
either Q true x y h k = h refl
either Q false x y h k = k refl

find-ok :
    (id : ℕ) (r : Registry) (s : SessionState) → find id r ≡ ok s → lookup id r.sessions ≡ some s
unfolding find
find-ok id r s h = elim (Bool-cases r.is_poisoned) [
  | inl e ↦ absurd (err-ne-ok (rw e at h))
  | inr e ↦ found-ok (lookup id r.sessions) (rw e at h)
]
  where
    found-ok : (x : Option SessionState) → found x ≡ ok s → x ≡ some s
    found-ok none h = absurd (err-ne-ok h)
    found-ok (some t) h = ap some (ok_injective h)

-- A property of every session of a registry is kept by a run, if it holds of fresh sessions and each
-- step of a session keeps it.
module _ (P : SessionState → Type 0) where
  abbrev pub Everywhere : Registry → Type 0
  Everywhere r = (k : ℕ) (s : SessionState) → lookup k r.sessions ≡ some s → P s

  put-Everywhere :
      (id : ℕ) (s : SessionState) (r : Registry) → P s → Everywhere r → Everywhere (put id s r)
  put-Everywhere id s r h all k t there = elim (Bool-cases (id == k)) [
    | inl e ↦ subst P (some_injective (sym (rw (lookup-insert id k s r.sessions, e)) ∙ there)) h
    | inr e ↦ all k t (sym (rw (lookup-insert id k s r.sessions, e)) ∙ there)
  ]

  remove-Everywhere :
      (id : ℕ) (r : Registry)
      → Everywhere r
      → Everywhere (record r { sessions = remove id r.sessions })
  remove-Everywhere id r all k t there = elim (Bool-cases (id == k)) [
    | inl e ↦ absurd (none-ne-some (sym (rw (lookup-remove id k r.sessions, e)) ∙ there))
    | inr e ↦ all k t (sym (rw (lookup-remove id k r.sessions, e)) ∙ there)
  ]

  on_session-Everywhere :
      {A : Type 0} (id : ℕ) (call : SessionState → Result Text A × SessionState) (r : Registry)
      (x : Result Text SessionState)
      → find id r ≡ x
      → ((s : SessionState) → P s → P (call s).1)
      → Everywhere r
      → Everywhere (on_session id call r x).1
  on_session-Everywhere id call r (err e) is keeps all = all
  on_session-Everywhere id call r (ok s) is keeps all =
      put-Everywhere id (call s).1 r (keeps s (all id s (find-ok id r s is))) all

  flowed-Everywhere :
      (id : ℕ) (f : FlowStep) (r : Registry) (x : Option SessionState)
      → lookup id r.sessions ≡ x
      → ((s : SessionState) → P s → P (flow f s))
      → Everywhere r
      → Everywhere (flowed id f r x)
  flowed-Everywhere id f r none is keeps all = all
  flowed-Everywhere id f r (some s) is keeps all =
      put-Everywhere id (flow f s) r (keeps s (all id s is)) all

  removed-Everywhere :
      (id : ℕ) (r : Registry) (x : Option SessionState)
      → Everywhere r
      → Everywhere (removed id r x).1
  removed-Everywhere id r none all = all
  removed-Everywhere id r (some s) all = remove-Everywhere id r all

  dispose-Everywhere : (id : ℕ) (r : Registry) → Everywhere r → Everywhere (dispose_session id r).1
  unfolding dispose_session
  dispose-Everywhere id r all =
      either (λ (x : Result Text (Unit {0}) × Registry). Everywhere x.1) r.is_poisoned _ _
        (λ e. all) λ e. removed-Everywhere id r (lookup id r.sessions) all

  module _ (new : (role : SessionRole) → P (fresh role)) where
    create-Everywhere :
        (role : SessionRole) (build : Build) (r : Registry)
        → Everywhere r
        → Everywhere (create_session role build r).1
    unfolding create_session
    create-Everywhere role (refused e) r all = all
    create-Everywhere role (build_failed e) r all = all
    create-Everywhere role made r all =
        either (λ (x : Result Text ℕ × Registry). Everywhere x.1) r.is_poisoned _ _ (λ e. all)
          λ e. put-Everywhere r.next_id (fresh role) r (new role) all

    -- What each call and each step of a flow does to its session.
    pub record Kept : Type 0 where
      pub by_send :
          (paths : List Text) (reply : Reply) (s : SessionState)
          → P s
          → P (start_send paths reply s).1
      pub by_receive :
          (code : Text) (reply : Reply) (s : SessionState) → P s → P (start_receive code reply s).1
      pub by_accept :
          (dir refusal : Text) (reply : Reply) (s : SessionState)
          → P s
          → P (answer_offer (accept dir) refusal reply s).1
      pub by_decline :
          (reason refusal : Text) (reply : Reply) (s : SessionState)
          → P s
          → P (answer_offer (decline reason) refusal reply s).1
      pub by_cancel : (reply : Reply) (s : SessionState) → P s → P (ask_cancel reply s).1
      pub by_flow : (f : FlowStep) (s : SessionState) → P s → P (flow f s)

    module _ (kept : Kept) where
      step-Everywhere : (op : Op) (r : Registry) → Everywhere r → Everywhere (step op r)
      unfolding step send_paths receive_ticket accept_offer decline_offer cancel_session
      step-Everywhere (create role build) r all = create-Everywhere role build r all
      step-Everywhere (send id paths reply) r all =
          on_session-Everywhere id _ r (find id r) refl (kept.by_send paths reply) all
      step-Everywhere (receive id code reply) r all =
          on_session-Everywhere id _ r (find id r) refl (kept.by_receive code reply) all
      step-Everywhere (accept_op id dir reply) r all =
          on_session-Everywhere id _ r (find id r) refl (kept.by_accept dir _ reply) all
      step-Everywhere (decline_op id reason reply) r all =
          on_session-Everywhere id _ r (find id r) refl (kept.by_decline reason _ reply) all
      step-Everywhere (cancel_op id reply) r all =
          on_session-Everywhere id _ r (find id r) refl (kept.by_cancel reply) all
      step-Everywhere (dispose id) r all = dispose-Everywhere id r all
      step-Everywhere (flow_op id f) r all =
          flowed-Everywhere id f r (lookup id r.sessions) refl (kept.by_flow f) all

      pub run-Everywhere : (ops : List Op) (r : Registry) → Everywhere r → Everywhere (run ops r)
      unfolding run
      run-Everywhere [] r all = all
      run-Everywhere (op ∷ ops) r all = run-Everywhere ops (step op r) (step-Everywhere op r all)
