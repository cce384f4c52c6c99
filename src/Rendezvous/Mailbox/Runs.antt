-- ===== src/Rendezvous/Mailbox/Runs.antt =====
-- Runs of the mailbox: any sequence of the operations that change it.
use worddrop.Base.{
  ℕ, ◌≡◌, ◌⊎◌, ◌∙◌, refl, true, false, List, [], ◌∷◌, Option, none, some, Text, Result, ok, err,
  ◌==◌, ==_iff, if◌then◌else◌, arith, Option-cases, inl, inr, Bool-cases,
}
use worddrop.Base.Table.{kept, lookup, IsMap}
use worddrop.Rendezvous.Nameplate.{Nameplate}
use worddrop.Rendezvous.Mailbox.{
  Instant, Duration, ClaimError, Entry, Mailbox, default, get, is_live, allocate, claim,
  purge_expired,
}
use worddrop.Rendezvous.Mailbox.Allocation.{allocate_entries, allocate-IsValid}
use worddrop.Rendezvous.Mailbox.View.{
  IsValid, claim_lem, claim_ok_inv, claim-IsValid, purge_expired-IsValid, get-purge_expired,
}

-- An operation with what its caller and its environment choose.
pub data Op : Type 0 where
  allocate_op : ℕ → (ℕ → Nameplate) → Text → Duration → Instant → Op
  claim_op : Nameplate → Instant → Op
  purge_op : Instant → Op

-- What a client learns.
pub data Event : Type 0 where
  allocated : Nameplate → Text → Event
  delivered : Nameplate → Text → Event
  nothing : Event

allocate_event : Mailbox → Text → Option (Nameplate × Mailbox) → Event × Mailbox
allocate_event m ticket none = (nothing, m)
allocate_event m ticket (some (n, m')) = (allocated n ticket, m')

claim_event : Nameplate → Result ClaimError Text → Mailbox → Event × Mailbox
claim_event n (ok t) m = (delivered n t, m)
claim_event n (err c) m = (nothing, m)

unfoldable pub step : Mailbox → Op → Event × Mailbox
unfolding allocate_event claim_event
step m (allocate_op rounds candidate ticket ttl now) =
    allocate_event m ticket (allocate rounds candidate m ticket ttl now)
step m (claim_op n now) = let (r, m') = claim m n now in claim_event n r m'
step m (purge_op now) = (nothing, (purge_expired m now).1)

unfoldable pub run : Mailbox → List Op → List Event
run m [] = []
run m (o ∷ os) = let (e, m') = step m o in e ∷ run m' os

-- The deliveries of the nameplate `n` in a history, when the ticket `p` waits there: each one
-- hands out the ticket of the last allocation of `n`, and uses it up.
abbrev pub Delivers : Nameplate → Option Text → List Event → Type 0
Delivers n p [] = Unit
Delivers n p (allocated j t ∷ es) = Delivers n (if j == n then some t else p) es
Delivers n p (delivered j t ∷ es) =
    ((if j == n then p else some t) ≡ some t) × Delivers n (if j == n then none else p) es
Delivers n p (nothing ∷ es) = Delivers n p es

-- Whatever waits unclaimed at `n` is the ticket `p`.
abbrev Waits : Nameplate → Option Text → Mailbox → Type 0
Waits n p m = (e : Entry) → get m n ≡ some e → e.claimed ≡ false → p ≡ some e.ticket

module _ (n : Nameplate) (p : Option Text) (m : Mailbox) (v : IsValid m) (w : Waits n p m) where
  Waits-purge : (now : Instant) → Waits n p (purge_expired m now).1
  Waits-purge now e h c = w e (at_entry (get m n) (rw (get-purge_expired m now n v) at h)) c
    where
      at_entry : (o : Option Entry) → kept (is_live now) o ≡ some e → o ≡ some e
      at_entry none q = q
      at_entry (some d) q = ground arith

  Waits-allocate :
      (rounds : ℕ) (candidate : ℕ → Nameplate) (ticket : Text) (ttl : Duration) (now : Instant)
      (j : Nameplate) (m' : Mailbox)
      → allocate rounds candidate m ticket ttl now ≡ some (j, m')
      → Waits n (if j == n then some ticket else p) m'
  Waits-allocate rounds candidate ticket ttl now j m' h e g c =
      let entry = allocate_entries rounds candidate m ticket ttl now j m' h n in
      elim (Bool-cases (j == n)) [
        | inl q ↦ rw q (ground (arith, rw (entry, q) at g))
        | inr q ↦ rw q (w e (rw (entry, q) at g) c)
      ]

  Waits-claim_ok :
      (k : Nameplate) (now : Instant) (t : Text)
      → (claim m k now).0 ≡ ok t
      → ((if k == n then p else some t) ≡ some t)
        × Waits n (if k == n then none else p) (claim m k now).1
  Waits-claim_ok k now t h =
      let (e, stored, unclaimed, same) = claim_ok_inv m k now t h in
      let entry : get (claim m k now).1 n
          ≡ (if k == n then some (record e { claimed = true }) else get m n) =
        (claim_lem m k n now).1 ∙ rw (h, stored) in
      (
        elim (Bool-cases (k == n)) [
          | inl q ↦ rw (q, ← same) (w e (rw (← (==_iff k n).0 q) stored) unclaimed)
          | inr q ↦ rw q refl
        ],
        λ d g c. elim (Bool-cases (k == n)) [
          | inl q ↦ absurd (ground (arith, rw (entry, q) at g))
          | inr q ↦ rw q (w d (rw (entry, q) at g) c)
        ],
      )

  Waits-claim_err :
      (k : Nameplate) (now : Instant) (c : ClaimError)
      → (claim m k now).0 ≡ err c
      → Waits n p (claim m k now).1
  Waits-claim_err k now c h e g u = w e (rw unchanged at g) u
    where
      unchanged : get (claim m k now).1 n ≡ get m n
      unchanged = (claim_lem m k n now).1 ∙ rw h (ground (arith, ==_iff k n))

Result-cases :
    (r : Result ClaimError Text) → ((t : Text) × (r ≡ ok t)) ⊎ ((c : ClaimError) × (r ≡ err c))
Result-cases (ok t) = inl (t, refl)
Result-cases (err c) = inr (c, refl)

run-Delivers :
    (n : Nameplate) (p : Option Text) (m : Mailbox) (os : List Op)
    → IsValid m
    → Waits n p m
    → Delivers n p (run m os)
unfolding run step
run-Delivers n p m [] v w = tt
run-Delivers n p m (purge_op now ∷ os) v w =
    run-Delivers n p (purge_expired m now).1 os (purge_expired-IsValid m now v)
      (Waits-purge n p m v w now)
run-Delivers n p m (claim_op k now ∷ os) v w = elim (Result-cases (claim m k now).0) [
  | inl (t, h) ↦
      let (used, waits) = Waits-claim_ok n p m v w k now t h in
      rw h (used, run-Delivers n _ (claim m k now).1 os (claim-IsValid m k now v) waits)
  | inr (c, h) ↦ rw h (
      run-Delivers n p (claim m k now).1 os (claim-IsValid m k now v)
        (Waits-claim_err n p m v w k now c h))
]
run-Delivers n p m (allocate_op rounds candidate ticket ttl now ∷ os) v w =
    elim (Option-cases (allocate rounds candidate m ticket ttl now)) [
      | inl h ↦ rw h (run-Delivers n p m os v w)
      | inr ((j, m'), h) ↦ rw h (
          run-Delivers n (if j == n then some ticket else p) m' os
            (allocate-IsValid rounds candidate m ticket ttl now j m' v h)
            (Waits-allocate n p m v w rounds candidate ticket ttl now j m' h))
    ]

-- From an empty mailbox, in every run of allocations, claims and purges, in any order and at any
-- times, each claim that succeeds hands out the ticket of the last allocation of its nameplate,
-- and no ticket is handed out twice for one allocation.
pub deliver_once : (n : Nameplate) (os : List Op) → Delivers n none (run default os)
deliver_once n os =
    run-Delivers n none default os (unfold IsMap in tt) (λ e h. absurd (unfold lookup in cc))
