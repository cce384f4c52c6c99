-- ===== src/App/Sessions/Runs/Disposal.antt =====
-- A disposed session of the app, flutter/rust/src/api/session.rs.
use worddrop.Base.{
  ℕ, suc, ◌+◌, ◌%◌, ◌^◌, ◌≤◌, ◌<◌, ◌≡◌, ◌≢◌, refl, sym, subst, ◌∙◌, Bool, true, false, List, [],
  ◌∷◌, Option, none, some, Text, codes, Result, ok, err, Bool-cases, false-ne-true, inl, inr,
  none-ne-some, err-ne-ok, ◌==◌, ==_iff, ==_self, ltb, if◌then◌else◌, arith,
}
use worddrop.Base.Table.{Table, lookup, insert, lookup-insert, lookup-remove, nat_eq}
use worddrop.App.Sessions.{
  SessionRole, SessionState, Registry, refused, build_failed, made, find, fresh, create_session,
  put, on_session, after_draw, send_paths, receive_ticket, accept_offer, decline_offer,
  cancel_session, removed, dispose_session,
}
use worddrop.App.Flows.{FlowStep}
use worddrop.App.Sessions.Runs.{
  Op, create, send, receive, accept_op, decline_op, cancel_op, dispose, flow_op, flowed, step, run,
  empty_registry, either, find-ok,
}

-- How many sessions are asked for.
abbrev pub creations : List Op → ℕ
creations [] = 0
creations (create role build ∷ ops) = suc (creations ops)
creations (op ∷ ops) = creations ops

abbrev Absent : ℕ → Registry → Type 0
Absent k r = lookup k r.sessions ≡ none

-- What a step other than a creation does: no id is drawn, and no session appears.
record IsQuiet (r r' : Registry) : Type 0 where
  same_id : r'.next_id ≡ r.next_id
  same_lock : r'.is_poisoned ≡ r.is_poisoned
  absent : (k : ℕ) → Absent k r → Absent k r'

unchanged : (r : Registry) → IsQuiet r r
unchanged r = record { same_id = refl; same_lock = refl; absent = λ k h. h }

put-IsQuiet :
    (id : ℕ) (s t : SessionState) (r : Registry)
    → lookup id r.sessions ≡ some t
    → IsQuiet r (put id s r)
put-IsQuiet id s t r there = record {
  same_id = refl;
  same_lock = refl;
  absent = λ k h. elim (Bool-cases (id == k)) [
    | inl e ↦ absurd (
        none-ne-some
          (sym (subst (λ j. lookup j r.sessions ≡ none) (sym ((==_iff id k).0 e)) h) ∙ there))
    | inr e ↦ rw (lookup-insert id k s r.sessions, e) h
  ];
}

on_session-IsQuiet :
    {A : Type 0} (id : ℕ) (call : SessionState → Result Text A × SessionState) (r : Registry)
    (x : Result Text SessionState)
    → find id r ≡ x
    → IsQuiet r (on_session id call r x).1
on_session-IsQuiet id call r (err e) is = unchanged r
on_session-IsQuiet id call r (ok s) is = put-IsQuiet id (call s).1 s r (find-ok id r s is)

flowed-IsQuiet :
    (id : ℕ) (f : FlowStep) (r : Registry) (x : Option SessionState)
    → lookup id r.sessions ≡ x
    → IsQuiet r (flowed id f r x)
flowed-IsQuiet id f r none is = unchanged r
flowed-IsQuiet id f r (some s) is = put-IsQuiet id _ s r is

removed-IsQuiet : (id : ℕ) (r : Registry) (x : Option SessionState) → IsQuiet r (removed id r x).1
removed-IsQuiet id r none = unchanged r
removed-IsQuiet id r (some s) = record {
  same_id = refl;
  same_lock = refl;
  absent = λ k h.
      rw (lookup-remove id k r.sessions, h)
        (either (λ (x : Option SessionState). x ≡ none) (id == k) none none (λ e. refl) λ e. refl);
}

dispose-IsQuiet : (id : ℕ) (r : Registry) → IsQuiet r (dispose_session id r).1
unfolding dispose_session
dispose-IsQuiet id r =
    either (λ (x : Result Text (Unit {0}) × Registry). IsQuiet r x.1) r.is_poisoned _ _
      (λ e. unchanged r) λ e. removed-IsQuiet id r (lookup id r.sessions)

-- A step, with ids left for it and for what follows.
record Steps (r r' : Registry) (left : ℕ) : Type 0 where
  further : r.next_id ≤ r'.next_id
  fits : r'.next_id + left < 2 ^ 64
  same_lock : r'.is_poisoned ≡ r.is_poisoned
  absent : (k : ℕ) → k ≢ r.next_id → Absent k r → Absent k r'
  above : ((k : ℕ) → r.next_id ≤ k → Absent k r) → (k : ℕ) → r'.next_id ≤ k → Absent k r'

quiet-Steps :
    (r r' : Registry) (left : ℕ) → r.next_id + left < 2 ^ 64 → IsQuiet r r' → Steps r r' left
quiet-Steps r r' left h q = record {
  further = omega (arith, q.same_id);
  fits = omega (arith, q.same_id, h);
  same_lock = q.same_lock;
  absent = λ k n a. q.absent k a;
  above = λ all k n. q.absent k (all k (omega (arith, q.same_id, n)));
}

drawn_lem : (n left : ℕ) → n + suc left < 2 ^ 64 → (n + 1) % 2 ^ 64 ≡ n + 1
drawn_lem n left h = omega (arith, h)

drawn-Steps :
    (r : Registry) (left : ℕ) → r.next_id + suc left < 2 ^ 64 → Steps r (after_draw r) left
drawn-Steps r left h =
    let next = drawn_lem r.next_id left h in
    record {
      further = omega (arith, next);
      fits = omega (arith, next, h);
      same_lock = refl;
      absent = λ k n a. a;
      above = λ all k n. all k (omega (arith, next, n));
    }

inserted_lem :
    (n k : ℕ) (s : SessionState) (t : Table ℕ SessionState)
    → k ≢ n
    → lookup k t ≡ none
    → lookup k (insert n s t) ≡ none
inserted_lem n k s t apart h = elim (Bool-cases (n == k)) [
  | inl e ↦ absurd (apart (sym ((==_iff n k).0 e)))
  | inr e ↦ rw (lookup-insert n k s t, e) h
]

registered-Steps :
    (role : SessionRole) (r : Registry) (left : ℕ)
    → r.next_id + suc left < 2 ^ 64
    → Steps r (record (after_draw r) { sessions = insert r.next_id (fresh role) r.sessions }) left
registered-Steps role r left h =
    let next = drawn_lem r.next_id left h in
    record {
      further = omega (arith, next);
      fits = omega (arith, next, h);
      same_lock = refl;
      absent = λ k n a. inserted_lem r.next_id k (fresh role) r.sessions n a;
      above = λ all k n.
          inserted_lem r.next_id k (fresh role) r.sessions (λ e. absurd (omega (arith, next, n, e)))
            (all k (omega (arith, next, n)));
    }

more-Steps :
    (op : Op) (ops : List Op) (left : ℕ) (r : Registry)
    → r.next_id + (creations (op ∷ ops) + left) < 2 ^ 64
    → Steps r (step op r) (creations ops + left)
unfolding step create_session send_paths receive_ticket accept_offer decline_offer cancel_session
more-Steps (create role (refused e)) ops left r h =
    quiet-Steps r r (creations ops + left) (omega (arith, h)) (unchanged r)
more-Steps (create role (build_failed e)) ops left r h =
    drawn-Steps r (creations ops + left) (omega (arith, h))
more-Steps (create role made) ops left r h =
    either (λ (x : Result Text ℕ × Registry). Steps r x.1 (creations ops + left)) r.is_poisoned _ _
      (λ e. drawn-Steps r (creations ops + left) (omega (arith, h)))
      λ e. registered-Steps role r (creations ops + left) (omega (arith, h))
more-Steps (send id paths reply) ops left r h =
    quiet-Steps r _ (creations ops + left) h (on_session-IsQuiet id _ r (find id r) refl)
more-Steps (receive id code reply) ops left r h =
    quiet-Steps r _ (creations ops + left) h (on_session-IsQuiet id _ r (find id r) refl)
more-Steps (accept_op id dir reply) ops left r h =
    quiet-Steps r _ (creations ops + left) h (on_session-IsQuiet id _ r (find id r) refl)
more-Steps (decline_op id reason reply) ops left r h =
    quiet-Steps r _ (creations ops + left) h (on_session-IsQuiet id _ r (find id r) refl)
more-Steps (cancel_op id reply) ops left r h =
    quiet-Steps r _ (creations ops + left) h (on_session-IsQuiet id _ r (find id r) refl)
more-Steps (dispose id) ops left r h =
    quiet-Steps r _ (creations ops + left) h (dispose-IsQuiet id r)
more-Steps (flow_op id f) ops left r h =
    quiet-Steps r _ (creations ops + left) h (flowed-IsQuiet id f r (lookup id r.sessions) refl)

step-Steps :
    (op : Op) (ops : List Op) (r : Registry)
    → r.next_id + creations (op ∷ ops) < 2 ^ 64
    → Steps r (step op r) (creations ops)
step-Steps op ops r h =
    subst (Steps r (step op r)) (omega arith) (more-Steps op ops 0 r (omega (arith, h)))

-- A session that is gone stays so.
run-Absent :
    (ops : List Op) (id : ℕ) (r : Registry)
    → id < r.next_id
    → r.next_id + creations ops < 2 ^ 64
    → Absent id r
    → Absent id (run ops r)
unfolding run
run-Absent [] id r below h gone = gone
run-Absent (op ∷ ops) id r below h gone =
    let done = step-Steps op ops r h in
    run-Absent ops id (step op r) (omega (arith, below, done.further)) done.fits
      (done.absent id (λ e. absurd (omega (arith, below, e))) gone)

run-same_lock :
    (ops : List Op) (r : Registry)
    → r.next_id + creations ops < 2 ^ 64
    → (run ops r).is_poisoned ≡ r.is_poisoned
unfolding run
run-same_lock [] r h = refl
run-same_lock (op ∷ ops) r h =
    let done = step-Steps op ops r h in run-same_lock ops (step op r) done.fits ∙ done.same_lock

-- What a run from an empty registry leaves: ids, and no session at an id that is still to come.
record Leaves (r : Registry) (left : ℕ) : Type 0 where
  fits : r.next_id + left < 2 ^ 64
  unpoisoned : r.is_poisoned ≡ false
  above : (k : ℕ) → r.next_id ≤ k → Absent k r

run-Leaves :
    (ops : List Op) (left : ℕ) (r : Registry)
    → Leaves r (creations ops + left)
    → Leaves (run ops r) left
unfolding run
run-Leaves [] left r h = subst (Leaves r) (omega arith) h
run-Leaves (op ∷ ops) left r h =
    let done = more-Steps op ops left r h.fits in
    run-Leaves ops left (step op r) (record {
      fits = done.fits;
      unpoisoned = done.same_lock ∙ h.unpoisoned;
      above = done.above h.above;
    })

started : (left : ℕ) → 1 + left < 2 ^ 64 → Leaves empty_registry left
unfolding lookup
started left h = record { fits = h; unpoisoned = refl; above = λ k n. refl }

removed_inv :
    (id : ℕ) (r : Registry) (x : Option SessionState)
    → lookup id r.sessions ≡ x
    → (removed id r x).0 ≡ ok tt
    → (s : SessionState) × (lookup id r.sessions ≡ some s) × Absent id (removed id r x).1
removed_inv id r none is h = absurd (err-ne-ok h)
removed_inv id r (some s) is h = (s, is, rw (lookup-remove id id r.sessions, ==_self id))

if_unpoisoned :
    (c : Bool) (id : ℕ) (r : Registry) (e : Text)
    → c ≡ false
    → (if c then (err e, r) else removed id r (lookup id r.sessions)).0 ≡ ok tt
    → (s : SessionState) × (lookup id r.sessions ≡ some s)
      × Absent id (if c then (err e, r) else removed id r (lookup id r.sessions)).1
if_unpoisoned true id r e is h = absurd (false-ne-true (sym is))
if_unpoisoned false id r e is h = removed_inv id r (lookup id r.sessions) refl h

dispose_inv :
    (id : ℕ) (r : Registry)
    → r.is_poisoned ≡ false
    → (dispose_session id r).0 ≡ ok tt
    → (s : SessionState) × (lookup id r.sessions ≡ some s) × Absent id (dispose_session id r).1
unfolding dispose_session
dispose_inv id r is h = if_unpoisoned r.is_poisoned id r _ is h

find-Absent :
    (id : ℕ) (r : Registry)
    → r.is_poisoned ≡ false
    → Absent id r
    → find id r ≡ err (codes "unknown session handle")
unfolding find
find-Absent id r is gone = rw (is, gone)

below_next :
    (id : ℕ) (r : Registry) (s : SessionState)
    → ((k : ℕ) → r.next_id ≤ k → Absent k r)
    → lookup id r.sessions ≡ some s
    → id < r.next_id
below_next id r s above there = elim (Bool-cases (ltb id r.next_id)) [
  | inl e ↦ ground arith
  | inr e ↦ absurd (none-ne-some (sym (above id (ground arith)) ∙ there))
]

-- A session that was disposed of is unknown for good: after any calls and steps of flows, whatever
-- sessions were created before and are created later, if they are fewer than 2^64 - 1 in all.
pub disposed_for_good :
    (before after : List Op) (id : ℕ)
    → 1 + (creations before + creations after) < 2 ^ 64
    → (dispose_session id (run before empty_registry)).0 ≡ ok tt
    → find id (run after (dispose_session id (run before empty_registry)).1)
      ≡ err (codes "unknown session handle")
disposed_for_good before after id few ended =
    let r = run before empty_registry in
    let left = run-Leaves before (creations after) empty_registry (started _ few) in
    let (s, there, gone) = dispose_inv id r left.unpoisoned ended in
    let quiet = dispose-IsQuiet id r in
    let fits : (dispose_session id r).1.next_id + creations after < 2 ^ 64 =
      omega (arith, quiet.same_id, left.fits) in
    find-Absent id (run after (dispose_session id r).1)
      (run-same_lock after (dispose_session id r).1 fits ∙ quiet.same_lock ∙ left.unpoisoned)
      (run-Absent after id (dispose_session id r).1
        (omega (arith, quiet.same_id, below_next id r s left.above there)) fits gone)
