-- ===== src/Examples/Server.antt =====
-- The rendezvous server on small inputs.
use worddrop.Base.{
  ℕ, zero, suc, ◌+◌, ◌*◌, ◌<◌, ◌≡◌, ◌↔◌, refl, true, false, List, [], ◌∷◌, none, some, ok, Text,
  codes, arith, if◌then◌else◌, ◌==◌,
}
use worddrop.Base.Table.{lookup, nat_eq}
use worddrop.Base.Decimal.{to_string}
use worddrop.Rendezvous.Nameplate.{Nameplate, IsNameplate, parse}
use worddrop.Rendezvous.Nameplate.Canonical.{parse_iff}
use worddrop.Rendezvous.Mailbox
use worddrop.Rendezvous.Mailbox.{Instant, Entry, Mailbox, get, contains_key, pick}
use worddrop.Rendezvous.Mailbox.Allocation.{Free, allocate_lem, allocate_total, allocate_blocked}
use worddrop.Rendezvous.Mailbox.Runs.{
  Op, allocate_op, claim_op, purge_op, Delivers, run, deliver_once,
}
use worddrop.Rendezvous.RateLimiter
use worddrop.Rendezvous.RateLimiter.{IpAddr, v4, v6, second}
use worddrop.Rendezvous.RateLimiter.Sliding.{
  Trace, Ascends, answers, spec_answers, answers-eq-spec_answers,
}

abbrev seven : ℕ → Nameplate
seven k = 7

seven-IsNameplate : (k : ℕ) → IsNameplate (seven k)
seven-IsNameplate k = (omega arith, omega arith)

abbrev ticket : Text
ticket = codes "blob"

abbrev waiting : Entry
waiting = record { ticket = ticket; expires_at = 600; claimed = false }

-- One ticket waits at the nameplate 7.
abbrev one_pair : Mailbox
one_pair = record { entries = (7, waiting) ∷ [] }

abbrev requests : List Op
requests =
    allocate_op 1 seven ticket 600 0
    ∷ claim_op 7 5
    ∷ claim_op 7 6
    ∷ purge_op 700
    ∷ claim_op 7 701
    ∷ []

deliver_once_example : Delivers 7 none (run Mailbox.default requests)
deliver_once_example = deliver_once 7 requests

-- The generator draws 7, which is in use, and then 8.
abbrev seven_eight : ℕ → Nameplate
seven_eight zero = 7
seven_eight (suc k) = 8

seven_eight-IsNameplate : (k : ℕ) → IsNameplate (seven_eight k)
seven_eight-IsNameplate zero = (omega arith, omega arith)
seven_eight-IsNameplate (suc k) = (omega arith, omega arith)

abbrev two_pairs : Mailbox
two_pairs = Mailbox.store one_pair 8 ticket 620

drawn : Mailbox.allocate 2 seven_eight one_pair ticket 600 20 ≡ some (8, two_pairs)
unfolding Mailbox.allocate pick lookup
drawn = refl

allocate_lem_example :
    IsNameplate 8
    × Free one_pair 8
    × ((j : Nameplate)
        → get two_pairs j ≡ (
            if 8 == j
            then some (record { ticket = ticket; expires_at = 20 + 600; claimed = false })
            else get one_pair j))
allocate_lem_example =
    allocate_lem 2 seven_eight one_pair ticket 600 20 8 two_pairs seven_eight-IsNameplate drawn

eight-Free : Free one_pair 8
unfolding lookup
eight-Free = refl

allocate_total_example :
    (n : Nameplate) × (m' : Mailbox) × (Mailbox.allocate 2 seven_eight one_pair ticket 600 20
      ≡ some (n, m'))
allocate_total_example =
    allocate_total 2 seven_eight one_pair ticket 600 20 1 eight-Free (omega arith)

-- A mailbox with an entry for each number below the bound.
abbrev filled : ℕ → List (Nameplate × Entry)
filled zero = []
filled (suc n) = (n, waiting) ∷ filled n

abbrev full : Mailbox
full = record { entries = filled 10000 }

filled_below : (bound n : ℕ) → n < bound → contains_key (lookup n (filled bound)) ≡ true
unfolding lookup
filled_below zero n h = absurd (omega arith)
filled_below (suc b) n h = ground (arith, filled_below b n)

full-contains : (j : Nameplate) → IsNameplate j → contains_key (get full j) ≡ true
full-contains j h = filled_below 10000 j (omega arith)

allocate_blocked_example : Mailbox.allocate 5 seven full ticket 600 20 ≡ none
allocate_blocked_example =
    allocate_blocked 5 seven full ticket 600 20 seven-IsNameplate full-contains

parse_iff_example : (parse (codes "42") ≡ ok 42) ↔ ((codes "42" ≡ to_string 42) × IsNameplate 42)
parse_iff_example = parse_iff (codes "42") 42

abbrev home : IpAddr
home = v4 2130706433

-- Three accesses from one address and one from another, with a limit of two.
abbrev accesses : Trace
accesses = (home, 1) ∷ (home, 2) ∷ (v6 1, 3) ∷ (home, 60 * second) ∷ []

accesses-Ascends : Ascends 0 accesses
accesses-Ascends = (omega arith, (omega arith, (omega arith, (omega arith, tt))))

answers-eq-spec_answers_example :
    answers 2 RateLimiter.default accesses ≡ spec_answers 2 [] accesses
answers-eq-spec_answers_example = answers-eq-spec_answers 2 accesses accesses-Ascends
