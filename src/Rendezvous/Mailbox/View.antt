-- ===== src/Rendezvous/Mailbox/View.antt =====
-- `claim`, `status` and `purge_expired` of crates/rendezvous/src/mailbox.rs at one nameplate.
use worddrop.Base.{
  ◌≤◌, ◌<◌, ◌≡◌, ap, ◌∙◌, refl, true, false, [], Option, none, some, Text, Result, ok, err, leb,
  ◌==◌, ==_iff, if◌then◌else◌, arith, Bool-cases, inl, inr,
}
use worddrop.Base.Table.{
  kept, nat_eq, lookup-insert, lookup-retain, IsMap, IsMap-insert, IsMap-retain,
}
use worddrop.Rendezvous.Nameplate.{Nameplate}
use worddrop.Rendezvous.Mailbox.{
  Instant, PairState, ClaimError, Entry, Mailbox, get, claim, claim_entry, status, status_of,
  is_live, purge_expired,
}

abbrev pub IsValid : Mailbox → Type 0
IsValid m = IsMap m.entries

-- What `claim` answers for each state that `status` reports.
abbrev pub answer : Option PairState → Text → Result ClaimError Text
answer none t = err ClaimError.not_found
answer (some PairState.pending) t = ok t
answer (some PairState.claimed) t = err ClaimError.not_found
answer (some PairState.expired) t = err ClaimError.expired

abbrev pub ticket_of : Option Entry → Text
ticket_of none = []
ticket_of (some e) = e.ticket

abbrev pub marked : Result ClaimError Text → Option Entry → Option Entry
marked (err c) o = o
marked (ok t) none = none
marked (ok t) (some e) = some (record e { claimed = true })

claim_entry_lem :
    (m : Mailbox) (n j : Nameplate) (now : Instant) (o : Option Entry)
    → get m n ≡ o
    → ((claim_entry m n now o).0 ≡ answer (status_of o now) (ticket_of o))
      × (get (claim_entry m n now o).1 j
          ≡ (if n == j then marked (claim_entry m n now o).0 o else get m j))
unfolding claim_entry
claim_entry_lem m n j now none h = ground (arith, ==_iff n j)
claim_entry_lem m n j now (some e) h =
    ground (arith, ==_iff n j, lookup-insert n j (record e { claimed = true }) m.entries)

-- `claim` succeeds exactly on a pending entry, with the ticket stored there, marks that entry
-- claimed, and leaves every other entry as it was; on an error no entry changes.
pub claim_lem :
    (m : Mailbox) (n j : Nameplate) (now : Instant)
    → ((claim m n now).0 ≡ answer (status m n now) (ticket_of (get m n)))
      × (get (claim m n now).1 j ≡ (if n == j then marked (claim m n now).0 (get m n) else get m j))
unfolding claim status
claim_lem m n j now = claim_entry_lem m n j now (get m n) refl

claim_entry_ok_inv :
    (m : Mailbox) (n : Nameplate) (now : Instant) (t : Text) (o : Option Entry)
    → (claim_entry m n now o).0 ≡ ok t
    → (e : Entry) × (o ≡ some e) × (e.claimed ≡ false) × (e.ticket ≡ t)
unfolding claim_entry
claim_entry_ok_inv m n now t none h = ground arith
claim_entry_ok_inv m n now t (some e) h = (e, refl, ground arith, ground arith)

-- A claim that succeeds found an unclaimed entry with the ticket.
pub claim_ok_inv :
    (m : Mailbox) (n : Nameplate) (now : Instant) (t : Text)
    → (claim m n now).0 ≡ ok t
    → (e : Entry) × (get m n ≡ some e) × (e.claimed ≡ false) × (e.ticket ≡ t)
unfolding claim
claim_ok_inv m n now t h = claim_entry_ok_inv m n now t (get m n) h

claim_entry-IsValid :
    (m : Mailbox) (n : Nameplate) (now : Instant) (o : Option Entry)
    → IsValid m
    → IsValid (claim_entry m n now o).1
unfolding claim_entry
claim_entry-IsValid m n now none v = v
claim_entry-IsValid m n now (some e) v = elim (Bool-cases (leb e.expires_at now)) [
  | inl q ↦ rw q v
  | inr q ↦ elim (Bool-cases e.claimed) [
    | inl r ↦ rw (q, r) v
    | inr r ↦ rw (q, r) (IsMap-insert n (record e { claimed = true }) m.entries v)
  ]
]

pub claim-IsValid :
    (m : Mailbox) (n : Nameplate) (now : Instant) → IsValid m → IsValid (claim m n now).1
unfolding claim
claim-IsValid m n now = claim_entry-IsValid m n now (get m n)

pub purge_expired-IsValid :
    (m : Mailbox) (now : Instant) → IsValid m → IsValid (purge_expired m now).1
unfolding purge_expired
purge_expired-IsValid m now v = IsMap-retain (is_live now) m.entries v

pub get-purge_expired :
    (m : Mailbox) (now : Instant) (j : Nameplate)
    → IsValid m
    → get (purge_expired m now).1 j ≡ kept (is_live now) (get m j)
unfolding purge_expired
get-purge_expired m now j v = lookup-retain (is_live now) j m.entries v

abbrev pub without_expired : Option PairState → Option PairState
without_expired (some PairState.expired) = none
without_expired s = s

-- A purge at `now` is seen, at that time or later, in nothing but that some nameplates that would
-- report `expired` are not found, and at `now` itself exactly those are.
status-purge_expired :
    (m : Mailbox) (now later : Instant) (j : Nameplate)
    → IsValid m
    → now ≤ later
    → let m' = (purge_expired m now).1 in
      (without_expired (status m' j later) ≡ without_expired (status m j later))
      × (status m' j now ≡ without_expired (status m j now))
unfolding status
status-purge_expired m now later j v h = rw (get-purge_expired m now j v) (at_entry (get m j))
  where
    at_entry :
        (o : Option Entry)
        → (without_expired (status_of (kept (is_live now) o) later)
            ≡ without_expired (status_of o later))
          × (status_of (kept (is_live now) o) now ≡ without_expired (status_of o now))
    at_entry none = (refl, refl)
    at_entry (some e) = ground arith

claim_entry_pending :
    (m : Mailbox) (n : Nameplate) (now : Instant) (ticket : Text) (expires_at : Instant)
    → now < expires_at
    → (claim_entry m n now
        (some (record { ticket = ticket; expires_at = expires_at; claimed = false }))).0
      ≡ ok ticket
unfolding claim_entry
claim_entry_pending m n now ticket expires_at h = ground arith

-- A claim of a pending entry succeeds.
pub claim_pending :
    (m : Mailbox) (n : Nameplate) (now : Instant) (ticket : Text) (expires_at : Instant)
    → get m n ≡ some (record { ticket = ticket; expires_at = expires_at; claimed = false })
    → now < expires_at
    → (claim m n now).0 ≡ ok ticket
unfolding claim
claim_pending m n now ticket expires_at h early =
    ap (λ (o : Option Entry). (claim_entry m n now o).0) h
    ∙ claim_entry_pending m n now ticket expires_at early
