-- ===== src/Rendezvous/RateLimiter/Sliding.antt =====
-- `RateLimiter::check` of crates/rendezvous/src/mailbox.rs and a specification that keeps the whole
-- history of the accesses.
use worddrop.Base.{
  ℕ, suc, ◌+◌, ◌-◌, ◌≤◌, ◌≡◌, refl, Bool, true, false, List, [], ◌∷◌, ◌++◌, length, All, All-append,
  length-append, leb, ltb, ltb→lt, if◌then◌else◌, ◌&&◌, arith, Bool-cases, inl, inr,
}
use mathlib.Core.Path.{ap₂}
use worddrop.Base.Table.{lookup, insert, lookup-insert}
use worddrop.Rendezvous.Mailbox.{Instant}
use worddrop.Rendezvous.RateLimiter.{
  IpAddr, ip_eq, same_ip, same_ip_iff, RateLimiter, default, window, window_length, pop_old, check,
}

-- All accesses that passed, the newest first.
abbrev pub History : Type 0
History = List (IpAddr × Instant)

-- How many of them are of the address and less than 60 seconds old.
pub recent : IpAddr → Instant → History → ℕ
recent ip now [] = 0
recent ip now ((j, t) ∷ h) =
    (if same_ip j ip && ltb (now - t) window_length then 1 else 0) + recent ip now h

-- The specification: no windows, the whole history.
pub spec_check : History → IpAddr → ℕ → Instant → Bool × History
spec_check h ip limit now =
    if ltb (recent ip now h) limit then (true, (ip, now) ∷ h) else (false, h)

abbrev pub Trace : Type 0
Trace = List (IpAddr × Instant)

-- The answers to a sequence of accesses.
pub answers : ℕ → RateLimiter → Trace → List Bool
answers limit l [] = []
answers limit l ((ip, now) ∷ rest) = let (b, l') = check l ip limit now in b ∷ answers limit l' rest

pub spec_answers : ℕ → History → Trace → List Bool
spec_answers limit h [] = []
spec_answers limit h ((ip, now) ∷ rest) =
    let (b, h') = spec_check h ip limit now in b ∷ spec_answers limit h' rest

-- The clock never goes back.
abbrev pub Ascends : Instant → Trace → Type 0
Ascends t [] = Unit
Ascends t ((ip, now) ∷ rest) = (t ≤ now) × Ascends now rest

pop_old_twice :
    (now later : Instant) (w : List Instant)
    → now ≤ later
    → pop_old later (pop_old now w) ≡ pop_old later w
unfolding pop_old
pop_old_twice now later [] h = refl
pop_old_twice now later (t ∷ w) h = elim (Bool-cases (leb window_length (now - t))) [
  | inl q ↦
      let still : leb window_length (later - t) ≡ true = ground arith in
      rw (q, still) (pop_old_twice now later w h)
  | inr q ↦ rw q
]

-- A window with `now` at its back.
length-pop_old-push :
    (now later : Instant) (w : List Instant)
    → All (λ t. t ≤ now) w
    → now ≤ later
    → length (pop_old later (w ++ now ∷ []))
      ≡ (if ltb (later - now) window_length then 1 else 0) + length (pop_old later w)
unfolding pop_old
length-pop_old-push now later [] a h = ground arith
length-pop_old-push now later (t ∷ w) a h = elim (Bool-cases (leb window_length (later - t))) [
  | inl q ↦ rw (q, length-pop_old-push now later w a.1 h)
  | inr q ↦
      let young : ltb (later - now) window_length ≡ true = ground arith in
      rw (q, young) (omega (arith, length-append w (now ∷ [])))
]

pop_old-All :
    (now bound : Instant) (w : List Instant)
    → All (λ t. t ≤ bound) w
    → All (λ t. t ≤ bound) (pop_old now w)
unfolding pop_old
pop_old-All now bound [] a = tt
pop_old-All now bound (t ∷ w) a = elim (Bool-cases (leb window_length (now - t))) [
  | inl q ↦ rw q (pop_old-All now bound w a.1)
  | inr q ↦ rw q a
]

All-mono : (a b : Instant) (w : List Instant) → a ≤ b → All (λ t. t ≤ a) w → All (λ t. t ≤ b) w
All-mono a b [] h k = tt
All-mono a b (t ∷ w) h k = (omega (arith, k.0), All-mono a b w h k.1)

-- The windows hold no access later than `now`, and count what the history counts.
record Counts (now : Instant) (l : RateLimiter) (h : History) : Type 0 where
  bounded : (ip : IpAddr) → All (λ t. t ≤ now) (window l ip)
  counted :
      (ip : IpAddr) (later : Instant)
      → now ≤ later
      → recent ip later h ≡ length (pop_old later (window l ip))

Counts-default : Counts 0 default []
unfolding lookup pop_old recent
Counts-default = record { bounded = λ ip. tt; counted = λ ip later h. refl }

module _ (start now : Instant) (l : RateLimiter) (h : History) (ip : IpAddr) (limit : ℕ)
    (order : start ≤ now) (c : Counts start l h) where
  abbrev before : List Instant
  before = pop_old now (window l ip)

  before_counts : recent ip now h ≡ length before
  before_counts = c.counted ip now order

  before_bounded : All (λ t. t ≤ now) before
  before_bounded =
      pop_old-All now now (window l ip) (All-mono start now (window l ip) order (c.bounded ip))

  abbrev stored : List Instant → RateLimiter
  stored w = record { entries = insert ip w l.entries }

  window-stored :
      (w : List Instant) (j : IpAddr)
      → window (stored w) j ≡ (if same_ip ip j then w else window l j)
  window-stored w j = rw (lookup-insert ip j w l.entries) (ground arith)

  -- A window that holds no late access, and counts as it should, can be stored.
  Counts-stored :
      (w : List Instant) (h' : History)
      → All (λ t. t ≤ now) w
      → ((j : IpAddr) (later : Instant)
          → now ≤ later
          → recent j later h' ≡ length (pop_old later (if same_ip ip j then w else window l j)))
      → Counts now (stored w) h'
  Counts-stored w h' a e = record {
    bounded = λ j. rw (window-stored w j) (elim (Bool-cases (same_ip ip j)) [
      | inl q ↦ rw q a
      | inr q ↦ rw q (All-mono start now (window l j) order (c.bounded j))
    ]);
    counted = λ j later g. rw (window-stored w j) (e j later g);
  }

  rejected_counts :
      (j : IpAddr) (later : Instant)
      → now ≤ later
      → recent j later h ≡ length (pop_old later (if same_ip ip j then before else window l j))
  rejected_counts j later g = elim (Bool-cases (same_ip ip j)) [
    | inl q ↦
        let same : ip ≡ j = (same_ip_iff ip j).0 q in
        rw (q, pop_old_twice now later (window l ip) g)
          (rw (← same) (c.counted ip later (omega arith)))
    | inr q ↦ rw q (c.counted j later (omega arith))
  ]

  passed_counts :
      (j : IpAddr) (later : Instant)
      → now ≤ later
      → recent j later ((ip, now) ∷ h)
        ≡ length (pop_old later (if same_ip ip j then before ++ now ∷ [] else window l j))
  unfolding recent
  passed_counts j later g = elim (Bool-cases (same_ip ip j)) [
    | inl q ↦
        let rest = rw q at (rejected_counts j later g) in
        rw (q, rest, length-pop_old-push now later before before_bounded g)
    | inr q ↦ rw q (omega (arith, c.counted j later (omega arith)))
  ]

  check_step :
      ((check l ip limit now).0 ≡ (spec_check h ip limit now).0)
      × Counts now (check l ip limit now).1 (spec_check h ip limit now).1
  unfolding check spec_check
  check_step = elim (Bool-cases (leb limit (length before))) [
    | inl q ↦
        let full : ltb (recent ip now h) limit ≡ false = rw before_counts (ground arith) in
        rw (q, full) (refl, Counts-stored before h before_bounded rejected_counts)
    | inr q ↦
        let room : ltb (recent ip now h) limit ≡ true = rw before_counts (ground arith) in
        rw (q, room)
          (
            refl,
            Counts-stored (before ++ now ∷ []) ((ip, now) ∷ h)
                (All-append (λ t. t ≤ now) before (now ∷ []) before_bounded (omega arith))
                passed_counts,
          )
  ]

answers_from :
    (limit : ℕ) (start : Instant) (l : RateLimiter) (h : History) (ts : Trace)
    → Ascends start ts
    → Counts start l h
    → answers limit l ts ≡ spec_answers limit h ts
unfolding answers spec_answers
answers_from limit start l h [] a c = refl
answers_from limit start l h ((ip, now) ∷ ts) a c =
    let (same, next) = check_step start now l h ip limit a.0 c in
    ap₂ ◌∷◌ same
      (answers_from limit now (check l ip limit now).1 (spec_check h ip limit now).1 ts a.1 next)

-- On a clock that never goes back, `check` answers every sequence of accesses, from any addresses,
-- as the sliding-window specification does: an access passes exactly when fewer than `limit`
-- accesses of its address passed in the 60 seconds before it.
pub answers-eq-spec_answers :
    (limit : ℕ) (ts : Trace) → Ascends 0 ts → answers limit default ts ≡ spec_answers limit [] ts
answers-eq-spec_answers limit ts a = answers_from limit 0 default [] ts a Counts-default

-- The accesses that passed, added to those before them.
pub passed : History → Trace → List Bool → History
passed h [] bs = h
passed h (a ∷ ts) [] = h
passed h (a ∷ ts) (b ∷ bs) = passed (if b then a ∷ h else h) ts bs

-- Each access came when at most `limit` accesses of its address, itself among them, had passed
-- in the last 60 seconds.
abbrev pub Limited : ℕ → History → Type 0
Limited limit [] = Unit
Limited limit ((ip, t) ∷ h) = (recent ip t ((ip, t) ∷ h) ≤ limit) × Limited limit h

recent-push-le :
    (ip : IpAddr) (t : Instant) (h : History) → recent ip t ((ip, t) ∷ h) ≤ suc (recent ip t h)
unfolding recent
recent-push-le ip t h = ground arith

spec_passed-Limited :
    (limit : ℕ) (h : History) (ts : Trace)
    → Limited limit h
    → Limited limit (passed h ts (spec_answers limit h ts))
unfolding passed spec_answers spec_check
spec_passed-Limited limit h [] a = a
spec_passed-Limited limit h ((ip, now) ∷ ts) a = elim (Bool-cases (ltb (recent ip now h) limit)) [
  | inl q ↦
      let fits : recent ip now ((ip, now) ∷ h) ≤ limit =
        omega (arith, recent-push-le ip now h, ltb→lt (recent ip now h) limit q) in
      rw q (spec_passed-Limited limit ((ip, now) ∷ h) ts (fits, a))
  | inr q ↦ rw q (spec_passed-Limited limit h ts a)
]

-- Whatever the accesses, on a clock that never goes back, no access passes `check` unless it and
-- the accesses of its address that passed in the 60 seconds before it number at most `limit`.
passed-Limited :
    (limit : ℕ) (ts : Trace)
    → Ascends 0 ts
    → Limited limit (passed [] ts (answers limit default ts))
passed-Limited limit ts a =
    rw (answers-eq-spec_answers limit ts a) (spec_passed-Limited limit [] ts tt)
