-- ===== src/Terminal/Steps.antt =====
-- How many lines a transfer prints, crates/cli/src/ui.rs.
use worddrop.Base.{
  ℕ, suc, ◌+◌, ◌*◌, ◌/◌, ◌%◌, ◌^◌, ◌≤◌, ◌<◌, ◌≡◌, ◌≢◌, refl, true, false, List, [], ◌∷◌, Option,
  Text, length, length-append, All, ◌||◌, inl, inr, Bool-cases, false-ne-true, ltb, leb, lt→ltb,
  ◌==◌, arith,
}
use native.Mathlib.Nat.{div-lt_iff_lt-mul, mul-div_cancel_left}
use worddrop.Terminal.{
  Floats, PlainBar, Screen, percent, next_step, reports, progress_line_with_speed, transfer,
  set_position, finish_and_clear,
}

no_wrap : (p t : ℕ) → p ≤ t → t * 100 < 2 ^ 64 → (p * 100) % 2 ^ 64 ≡ p * 100
no_wrap p t h small = omega arith

percent_le : (p t : ℕ) → p ≤ t → 0 < t → t * 100 < 2 ^ 64 → percent p t ≤ 100
percent_le p t h pos small =
    let below : p * 100 / t < 101 =
      (div-lt_iff_lt-mul {k = t} {x = p * 100} {y = 101} pos).1 (omega arith) in
    rw (no_wrap p t h small) (omega (arith, below))

percent_all : (t : ℕ) → 0 < t → t * 100 < 2 ^ 64 → percent t t ≡ 100
percent_all t pos small = rw (no_wrap t t (omega arith) small) (mul-div_cancel_left 100 pos)

-- With these lines behind the first, and the percentage of the last that was reported.
abbrev Paced : ℕ → ℕ → ℕ → ℕ → Type 0
Paced last total percent n = (5 * n ≤ percent + 5) × (last < total → 5 * n ≤ percent)

-- A report is due at the total, or five percent further.
due_lem : (p t x y : ℕ) → y ≤ 100 → (leb t p || leb (next_step y) x) ≡ true → p < t → y + 5 ≤ x
due_lem p t x y hy due short = ground arith

apart_lem : (p t last : ℕ) → (t == 0 || p == last) ≡ false → p ≢ last
apart_lem p t last h e = ground arith

step-Paced :
    (p last t n x y : ℕ)
    → p ≤ t
    → last ≤ t
    → x ≤ 100
    → y ≤ 100
    → (p ≡ t → x ≡ 100)
    → (last ≡ t → y ≡ 100)
    → (t == 0 || p == last) ≡ false
    → (leb t p || leb (next_step y) x) ≡ true
    → Paced last t y n
    → Paced p t x (suc n)
step-Paced p last t n x y h hl hx hy full full' apart due paced = (
  elim (Bool-cases (ltb p t)) [
    | inl e ↦ let further = due_lem p t x y hy due (ground arith) in omega (arith, further, paced.0)
    | inr e ↦
        let all : p ≡ t = ground arith in
        let short : last < t = ground (arith, apart_lem p t last apart) in
        omega (arith, full all, paced.1 short)
  ],
  λ short.
      let further = due_lem p t x y hy due short in
      elim (Bool-cases (ltb last t)) [
        | inl e ↦ omega (arith, further, paced.1 (ground arith))
        | inr e ↦ omega (arith, further, hx, full' (ground arith))
      ],
)

module _ {Speed : Type 0} (floats : Floats Speed) where
  -- The positions and speeds that a transfer reports, in their order.
  abbrev pub set_all : List (ℕ × Option Speed) → Screen → Screen
  set_all [] s = s
  set_all ((p, speed) ∷ ps) s = set_all ps (set_position floats p speed s)

  -- A screen after these many lines behind the first.
  record IsPaced (total n : ℕ) (s : Screen) : Type 0 where
    same_total : s.bar.total ≡ total
    running : s.bar.finished ≡ false
    within : s.bar.last_reported ≤ total
    paced : Paced s.bar.last_reported total (percent s.bar.last_reported total) n
    printed : length s.lines ≡ suc n

  reports_inv :
      (p : ℕ) (bar : PlainBar)
      → bar.finished ≡ false
      → reports p bar ≡ true
      → ((bar.total == 0 || p == bar.last_reported) ≡ false)
        × ((leb bar.total p
              || leb (next_step (percent bar.last_reported bar.total)) (percent p bar.total))
            ≡ true)
  unfolding reports
  reports_inv p bar running h = elim (Bool-cases (bar.total == 0 || p == bar.last_reported)) [
    | inl e ↦ absurd (false-ne-true (rw (running, e) at h))
    | inr e ↦ (e, rw (running, e) at h)
  ]

  module _ (total : ℕ) (pos : 0 < total) (small : total * 100 < 2 ^ 64) where
    at_all : (p : ℕ) → p ≡ total → percent p total ≡ 100
    at_all p same = rw same (percent_all total pos small)

    set_position-IsPaced :
        (p n : ℕ) (speed : Option Speed) (s : Screen)
        → p ≤ total
        → IsPaced total n s
        → (m : ℕ) × IsPaced total m (set_position floats p speed s)
    unfolding set_position
    set_position-IsPaced p n speed s h paced = elim (Bool-cases (reports p s.bar)) [
      | inr e ↦ rw e (n, paced)
      | inl e ↦
          let (apart, due) = reports_inv p s.bar paced.running e in
          rw e (
            suc n,
            record {
              same_total = paced.same_total;
              running = paced.running;
              within = h;
              paced =
                  step-Paced p s.bar.last_reported total n (percent p total)
                    (percent s.bar.last_reported total) h paced.within
                    (percent_le p total h pos small)
                    (percent_le s.bar.last_reported total paced.within pos small)
                    (λ same. at_all p same) (λ same. at_all s.bar.last_reported same)
                    (rw (← paced.same_total) apart) (rw (← paced.same_total) due) paced.paced;
              printed =
                  rw
                    (length-append s.lines
                      (progress_line_with_speed floats s.bar.msg p s.bar.total speed ∷ []))
                    (omega (arith, paced.printed));
            },
          )
    ]

    set_all-IsPaced :
        (ps : List (ℕ × Option Speed)) (n : ℕ) (s : Screen)
        → All (λ p. p.0 ≤ total) ps
        → IsPaced total n s
        → (m : ℕ) × IsPaced total m (set_all ps s)
    set_all-IsPaced [] n s h paced = (n, paced)
    set_all-IsPaced ((p, speed) ∷ ps) n s h paced =
        let (m, next) = set_position-IsPaced p n speed s h.0 paced in
        set_all-IsPaced ps m (set_position floats p speed s) h.1 next

    transfer-IsPaced : (msg : Text) → IsPaced total 0 (transfer floats msg total)
    unfolding transfer
    transfer-IsPaced msg = record {
      same_total = refl;
      running = refl;
      within = omega arith;
      paced = (omega arith, λ h. omega arith);
      printed = rw (lt→ltb 0 total pos);
    }

    -- A transfer of at least one byte, whose positions are within its total, in any order, prints at
    -- most 22 lines up to its end, if a hundred times the total is below 2^64.
    pub transfer_bounded :
        (msg : Text) (ps : List (ℕ × Option Speed)) (speed : Option Speed)
        → All (λ p. p.0 ≤ total) ps
        → length (finish_and_clear floats speed (set_all ps (transfer floats msg total))).lines ≤ 22
    transfer_bounded msg ps speed h =
        let (n, paced) =
          set_all-IsPaced ps 0 (transfer floats msg total) h (transfer-IsPaced msg) in
        let s = set_all ps (transfer floats msg total) in
        let (m, done) =
          set_position-IsPaced s.bar.total n speed s (rw paced.same_total (omega arith)) paced in
        omega (arith, done.printed, done.paced.0, percent_le _ total done.within pos small)
