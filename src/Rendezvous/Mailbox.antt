-- ===== src/Rendezvous/Mailbox.antt =====
-- `Mailbox`, crates/rendezvous/src/mailbox.rs. Instants and durations are whole nanoseconds from
-- one origin. `allocate` draws candidates from an infinite sequence, the random generator's.
pub mod View
pub mod Allocation
pub mod Runs
use worddrop.Base.{
  ℕ, zero, suc, ◌+◌, ◌-◌, ◌≤◌, ◌≡◌, Bool, true, false, not, List, [], ◌∷◌, Option, none, some, Text,
  length, Result, ok, err, ltb, leb, if◌then◌else◌,
}
use worddrop.Base.Table.{Table, lookup, insert, retain, nat_eq}
use worddrop.Rendezvous.Nameplate.{Nameplate}

abbrev pub Instant : Type 0
Instant = ℕ

abbrev pub Duration : Type 0
Duration = ℕ

abbrev pub max_ticket_length : ℕ
max_ticket_length = 4096

pub data PairState : Type 0 where
  pending claimed expired : PairState

pub data ClaimError : Type 0 where
  not_found expired : ClaimError

pub record Entry : Type 0 where
  pub ticket : Text
  pub expires_at : Instant
  pub claimed : Bool

pub record Mailbox : Type 0 where
  pub entries : Table Nameplate Entry

abbrev pub default : Mailbox
default = record { entries = [] }

abbrev pub get : Mailbox → Nameplate → Option Entry
get m n = lookup n m.entries

abbrev pub contains_key : Option Entry → Bool
contains_key none = false
contains_key (some e) = true

-- The loop of `allocate`: the first candidate, from round `i` on, that is not in use. `none`: no
-- such candidate within the rounds given.
unfoldable pub pick : ℕ → (ℕ → Nameplate) → Mailbox → ℕ → Option Nameplate
pick zero candidate m i = none
pick (suc rounds) candidate m i =
    let rest = pick rounds candidate m (suc i) in
    if contains_key (get m (candidate i)) then rest else some (candidate i)

abbrev pub store : Mailbox → Nameplate → Text → Instant → Mailbox
store m n ticket expires_at = record {
  entries =
      insert n (record { ticket = ticket; expires_at = expires_at; claimed = false }) m.entries;
}

finish_allocate : Mailbox → Text → Instant → Option Nameplate → Option (Nameplate × Mailbox)
finish_allocate m ticket expires_at none = none
finish_allocate m ticket expires_at (some n) = some (n, store m n ticket expires_at)

-- `Mailbox::allocate`; `now` is the instant read after the loop.
unfoldable pub allocate :
    ℕ → (ℕ → Nameplate) → Mailbox → Text → Duration → Instant → Option (Nameplate × Mailbox)
unfolding finish_allocate
allocate rounds candidate m ticket ttl now =
    finish_allocate m ticket (now + ttl) (pick rounds candidate m 0)

claim_entry : Mailbox → Nameplate → Instant → Option Entry → Result ClaimError Text × Mailbox
claim_entry m n now none = (err not_found, m)
claim_entry m n now (some e) =
    if leb e.expires_at now
    then (err expired, m)
    else if e.claimed
    then (err not_found, m)
    else (ok e.ticket, record { entries = insert n (record e { claimed = true }) m.entries })

-- `Mailbox::claim`
unfoldable pub claim : Mailbox → Nameplate → Instant → Result ClaimError Text × Mailbox
unfolding claim_entry
claim m n now = claim_entry m n now (get m n)

abbrev pub state_of : Entry → Instant → PairState
state_of e now =
    if leb e.expires_at now
    then PairState.expired
    else if e.claimed
    then PairState.claimed
    else pending

abbrev pub status_of : Option Entry → Instant → Option PairState
status_of none now = none
status_of (some e) now = some (state_of e now)

-- `Mailbox::status`
unfoldable pub status : Mailbox → Nameplate → Instant → Option PairState
status m n now = status_of (get m n) now

-- `Mailbox::len`
unfoldable pub len : Mailbox → ℕ
len m = length m.entries

unfoldable pub is_empty : Mailbox → Bool
is_empty m = elim m.entries [ [] ↦ true | e ∷ es ↦ false ]

abbrev pub is_live : Instant → Entry → Bool
is_live now e = ltb now e.expires_at

-- `Mailbox::purge_expired`: how many were removed, and what is left.
unfoldable pub purge_expired : Mailbox → Instant → ℕ × Mailbox
purge_expired m now =
    let after = retain (is_live now) m.entries in
    (length m.entries - length after, record { entries = after })
