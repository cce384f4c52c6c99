-- ===== src/Rendezvous/Mailbox/Allocation.antt =====
-- `Mailbox::allocate`: when its loop ends, and what it stores.
use worddrop.Base.{
  ℕ, zero, suc, ◌+◌, ◌<◌, ◌≡◌, refl, true, false, Option, none, some, Text, ◌==◌, ==_self,
  if◌then◌else◌, arith, inl, inr, Bool-cases,
}
use worddrop.Base.Table.{nat_eq, lookup-insert, IsMap-insert}
use worddrop.Rendezvous.Nameplate.{Nameplate, IsNameplate}
use worddrop.Rendezvous.Mailbox.{
  Instant, Duration, Entry, Mailbox, get, contains_key, pick, store, allocate,
}
use worddrop.Rendezvous.Mailbox.View.{IsValid}

abbrev pub Free : Mailbox → Nameplate → Type 0
Free m n = get m n ≡ none

free_of_test : (o : Option Entry) → contains_key o ≡ false → o ≡ none
free_of_test none h = refl
free_of_test (some e) h = ground arith

-- A candidate that the loop returns was drawn, and is free.
pick_sound :
    (rounds : ℕ) (candidate : ℕ → Nameplate) (m : Mailbox) (i : ℕ) (n : Nameplate)
    → pick rounds candidate m i ≡ some n
    → Free m n × ((k : ℕ) × (n ≡ candidate k))
unfolding pick
pick_sound zero candidate m i n h = ground arith
pick_sound (suc rounds) candidate m i n h = elim (Bool-cases (contains_key (get m (candidate i)))) [
  | inl q ↦ pick_sound rounds candidate m (suc i) n (rw q at h)
  | inr q ↦
      let same : candidate i ≡ n = ground arith in
      (rw (← same) (free_of_test (get m (candidate i)) q), (i, ground arith))
]

-- The loop returns if one of the candidates in reach is free.
pick_total :
    (d rounds : ℕ) (candidate : ℕ → Nameplate) (m : Mailbox) (i : ℕ)
    → Free m (candidate (i + d))
    → d < rounds
    → (n : Nameplate) × (pick rounds candidate m i ≡ some n)
unfolding pick
pick_total d zero candidate m i f h = absurd (omega arith)
pick_total zero (suc rounds) candidate m i f h =
    let here : i + 0 ≡ i = omega arith in (candidate i, rw (rw here at f))
pick_total (suc d) (suc rounds) candidate m i f h =
    elim (Bool-cases (contains_key (get m (candidate i)))) [
      | inl q ↦
          let next : i + suc d ≡ suc i + d = omega arith in
          rw q (pick_total d rounds candidate m (suc i) (rw next at f) (omega arith))
      | inr q ↦ (candidate i, rw q)
    ]

pick_blocked :
    (rounds : ℕ) (candidate : ℕ → Nameplate) (m : Mailbox) (i : ℕ)
    → ((k : ℕ) → contains_key (get m (candidate k)) ≡ true)
    → pick rounds candidate m i ≡ none
unfolding pick
pick_blocked zero candidate m i h = refl
pick_blocked (suc rounds) candidate m i h = rw (h i) (pick_blocked rounds candidate m (suc i) h)

module _ (rounds : ℕ) (candidate : ℕ → Nameplate) (m : Mailbox) (ticket : Text) (ttl : Duration)
    (now : Instant) where
  allocate_inv :
      (n : Nameplate) (m' : Mailbox)
      → allocate rounds candidate m ticket ttl now ≡ some (n, m')
      → (pick rounds candidate m 0 ≡ some n) × (m' ≡ store m n ticket (now + ttl))
  unfolding allocate
  allocate_inv n m' h = ground arith

  abbrev pub fresh : Entry
  fresh = record { ticket = ticket; expires_at = now + ttl; claimed = false }

  pub allocate_entries :
      (n : Nameplate) (m' : Mailbox)
      → allocate rounds candidate m ticket ttl now ≡ some (n, m')
      → (j : Nameplate) → get m' j ≡ (if n == j then some fresh else get m j)
  allocate_entries n m' h j = rw (allocate_inv n m' h).1 (lookup-insert n j fresh m.entries)

  -- The entry of the nameplate that was handed out.
  pub allocate_self :
      (n : Nameplate) (m' : Mailbox)
      → allocate rounds candidate m ticket ttl now ≡ some (n, m')
      → get m' n ≡ some fresh
  allocate_self n m' h = rw (allocate_entries n m' h n, ==_self n)

  pub allocate-IsValid :
      (n : Nameplate) (m' : Mailbox)
      → IsValid m
      → allocate rounds candidate m ticket ttl now ≡ some (n, m')
      → IsValid m'
  allocate-IsValid n m' v h = rw (allocate_inv n m' h).1 (IsMap-insert n fresh m.entries v)

  -- With candidates in 1 to 9999, `allocate` hands out a nameplate of that range that was free,
  -- stores the ticket there unclaimed, to expire after `ttl`, and leaves every other entry as it
  -- was.
  pub allocate_lem :
      (n : Nameplate) (m' : Mailbox)
      → ((k : ℕ) → IsNameplate (candidate k))
      → allocate rounds candidate m ticket ttl now ≡ some (n, m')
      → IsNameplate n
        × Free m n
        × ((j : Nameplate)
            → get m' j ≡ (
                if n == j
                then some (record { ticket = ticket; expires_at = now + ttl; claimed = false })
                else get m j))
  allocate_lem n m' range h =
      let (free, (k, drawn)) = pick_sound rounds candidate m 0 n (allocate_inv n m' h).0 in
      (rw drawn (range k), free, allocate_entries n m' h)

  -- `allocate` returns as soon as the generator draws a free nameplate: rounds past that draw
  -- are enough.
  pub allocate_total :
      (d : ℕ)
      → Free m (candidate d)
      → d < rounds
      → (n : Nameplate) × (m' : Mailbox) × (allocate rounds candidate m ticket ttl now
          ≡ some (n, m'))
  unfolding allocate
  allocate_total d f h =
      let drawn : 0 + d ≡ d = omega arith in
      let (n, picked) = pick_total d rounds candidate m 0 (rw drawn f) h in
      (n, store m n ticket (now + ttl), rw picked)

  -- When all of the nameplates 1 to 9999 have entries, expired ones included, no number of rounds
  -- ends the loop of `allocate`, whatever the generator draws in that range.
  pub allocate_blocked :
      ((k : ℕ) → IsNameplate (candidate k))
      → ((j : Nameplate) → IsNameplate j → contains_key (get m j) ≡ true)
      → allocate rounds candidate m ticket ttl now ≡ none
  unfolding allocate
  allocate_blocked range full =
      rw (pick_blocked rounds candidate m 0 (λ k. full (candidate k) (range k)))
