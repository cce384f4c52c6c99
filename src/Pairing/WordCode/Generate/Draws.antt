-- ===== src/Pairing/WordCode/Generate/Draws.antt =====
-- The draws of `WordCode::generate`, crates/core/src/pairing/wordcode.rs, and its end.
use worddrop.Base.{
  ℕ, zero, suc, ◌+◌, ◌≤◌, ◌<◌, ◌≡◌, ◌≢◌, refl, sym, ◌∙◌, true, false, ◌&&◌, List, [], ◌∷◌, ◌++◌,
  some, Text, any, length, text_eq, text_eq_iff, text_eq_self, ok, ltb, leb, ◌==◌, if◌then◌else◌,
  Bool-cases, inl, inr, ◌⊎◌, ==_iff, any-append, arith,
}
use mathlib.Core.Path.{subst}
use worddrop.Rendezvous.Nameplate.{IsNameplate}
use worddrop.Pairing.Wordlist.{words}
use worddrop.Pairing.WordCode.{
  Words, WordCode, word_count, generate, pick_words, get_word, three_words,
}
use worddrop.Pairing.WordCode.Generate.{some_injective, differ}

-- The word `t` is picked, or drawn in one of the rounds to come.
abbrev Comes : (ℕ → ℕ) → ℕ → ℕ → List Text → Text → Type 0
Comes draw rounds i picked t =
    (any (λ v. text_eq v t) picked ≡ true)
    ⊎ ((k : ℕ) × (i ≤ k) × (k < i + rounds) × (get_word words (draw k) ≡ some t))

abbrev pushed : List Text → Text → List Text
pushed picked w = if any (λ v. text_eq v w) picked then picked else picked ++ w ∷ []

pushed-any :
    (picked : List Text) (w t : Text)
    → any (λ v. text_eq v t) picked ≡ true
    → any (λ v. text_eq v t) (pushed picked w) ≡ true
pushed-any picked w t h = elim (Bool-cases (any (λ v. text_eq v w) picked)) [
  | inl q ↦ rw q h
  | inr q ↦ rw (q, any-append (λ v. text_eq v t) picked (w ∷ []), h)
]

pushed_self : (picked : List Text) (w : Text) → any (λ v. text_eq v w) (pushed picked w) ≡ true
pushed_self picked w = elim (Bool-cases (any (λ v. text_eq v w) picked)) [
  | inl q ↦ rw q q
  | inr q ↦ rw (q, any-append (λ v. text_eq v w) picked (w ∷ []), q, text_eq_self w)
]

Comes-step :
    (draw : ℕ → ℕ) (rounds i : ℕ) (picked : List Text) (w t : Text)
    → get_word words (draw i) ≡ some w
    → Comes draw (suc rounds) i picked t
    → Comes draw rounds (suc i) (pushed picked w) t
Comes-step draw rounds i picked w t h (inl old) = inl (pushed-any picked w t old)
Comes-step draw rounds i picked w t h (inr (k, low, high, drawn)) = elim (Bool-cases (k == i)) [
  | inl q ↦
      let now : k ≡ i = (==_iff k i).0 q in
      let same : w ≡ t = some_injective (sym h ∙ rw now at drawn) in
      inl (subst (λ x. any (λ v. text_eq v x) (pushed picked w) ≡ true) same (pushed_self picked w))
  | inr q ↦ inr (k, ground arith, omega arith, drawn)
]

found_two : (x y t : Text) → any (λ v. text_eq v t) (x ∷ y ∷ []) ≡ true → (x ≡ t) ⊎ (y ≡ t)
found_two x y t h = elim (Bool-cases (text_eq x t)) [
  | inl q ↦ inl ((text_eq_iff x t).0 q)
  | inr q ↦ elim (Bool-cases (text_eq y t)) [
    | inl r ↦ inr ((text_eq_iff y t).0 r)
    | inr r ↦ absurd (cc (rw (q, r) at h))
  ]
]

-- Three different texts are not all among two.
crowded :
    (a b c x y : Text)
    → a ≢ b
    → a ≢ c
    → b ≢ c
    → (x ≡ a) ⊎ (y ≡ a)
    → (x ≡ b) ⊎ (y ≡ b)
    → (x ≡ c) ⊎ (y ≡ c)
    → ⊥
crowded a b c x y ab ac bc (inl p) (inl q) r = ab (sym p ∙ q)
crowded a b c x y ab ac bc (inr p) (inr q) r = ab (sym p ∙ q)
crowded a b c x y ab ac bc (inl p) (inr q) (inl r) = ac (sym p ∙ r)
crowded a b c x y ab ac bc (inl p) (inr q) (inr r) = bc (sym q ∙ r)
crowded a b c x y ab ac bc (inr p) (inl q) (inl r) = bc (sym q ∙ r)
crowded a b c x y ab ac bc (inr p) (inl q) (inr r) = ac (sym p ∙ r)

module _ (draw : ℕ → ℕ) (a b c : Text) (ab : a ≢ b) (ac : a ≢ c) (bc : b ≢ c) where
  enough :
      (picked : List Text)
      → any (λ v. text_eq v a) picked ≡ true
      → any (λ v. text_eq v b) picked ≡ true
      → any (λ v. text_eq v c) picked ≡ true
      → ltb (length picked) word_count ≡ false
  enough [] ha hb hc = absurd (cc ha)
  enough (x ∷ []) ha hb hc =
      let one = λ (t : Text) (h : any (λ v. text_eq v t) (x ∷ []) ≡ true).
        found_two x x t (ground (arith, h)) in
      absurd (crowded a b c x x ab ac bc (one a ha) (one b hb) (one c hc))
  enough (x ∷ y ∷ []) ha hb hc =
      absurd
        (crowded a b c x y ab ac bc (found_two x y a ha) (found_two x y b hb) (found_two x y c hc))
  enough (x ∷ y ∷ z ∷ ws) ha hb hc = ground arith

  now_picked :
      (i : ℕ) (picked : List Text) (t : Text)
      → Comes draw 0 i picked t
      → any (λ v. text_eq v t) picked ≡ true
  now_picked i picked t (inl h) = h
  now_picked i picked t (inr (k, low, high, drawn)) = absurd (omega arith)

  pick_words_total :
      (rounds i : ℕ) (picked : List Text)
      → ((k : ℕ) → (w : Text) × (get_word words (draw k) ≡ some w))
      → Comes draw rounds i picked a
      → Comes draw rounds i picked b
      → Comes draw rounds i picked c
      → (result : List Text) × (pick_words rounds draw i picked ≡ some result)
        × (ltb (length result) word_count ≡ false)
  unfolding pick_words
  pick_words_total zero i picked range ca cb cc' =
      let full =
        enough picked (now_picked i picked a ca) (now_picked i picked b cb)
          (now_picked i picked c cc') in
      (picked, rw full, full)
  pick_words_total (suc rounds) i picked range ca cb cc' =
      elim (Bool-cases (ltb (length picked) word_count)) [
        | inr q ↦ (picked, rw q, q)
        | inl q ↦
            let (w, drawn) = range i in
            let (result, ended, full) =
              pick_words_total rounds (suc i) (pushed picked w) range
                (Comes-step draw rounds i picked w a drawn ca)
                (Comes-step draw rounds i picked w b drawn cb)
                (Comes-step draw rounds i picked w c drawn cc') in
            (result, rw (q, drawn) ended, full)
      ]

three_of_full :
    (picked : List Text)
    → ltb (length picked) word_count ≡ false
    → (ws : Words) × (three_words picked ≡ some ws)
three_of_full [] h = absurd (ground arith)
three_of_full (a ∷ []) h = absurd (ground arith)
three_of_full (a ∷ b ∷ []) h = absurd (ground arith)
three_of_full (a ∷ b ∷ c ∷ ws) h = ((a, b, c), refl)

-- With every draw inside the word list, `generate` returns a code for a nameplate from 1 to 9999
-- if three different words are among the draws of the rounds given.
pub generate_total :
    (rounds n : ℕ) (draw : ℕ → ℕ) (a b c : Text) (i j k : ℕ)
    → IsNameplate n
    → ((r : ℕ) → (w : Text) × (get_word words (draw r) ≡ some w))
    → (a ≢ b) × (a ≢ c) × (b ≢ c)
    → (i < rounds) × (j < rounds) × (k < rounds)
    → get_word words (draw i) ≡ some a
    → get_word words (draw j) ≡ some b
    → get_word words (draw k) ≡ some c
    → (code : WordCode) × (generate rounds n draw ≡ some (ok code))
unfolding generate
generate_total rounds n draw a b c i j k valid range differ early da db dc =
    let (picked, ended, full) =
      pick_words_total draw a b c differ.0 differ.1 differ.2 rounds 0 [] range
        (inr (i, omega arith, omega arith, da)) (inr (j, omega arith, omega arith, db))
        (inr (k, omega arith, omega arith, dc)) in
    let (ws, three) = three_of_full picked full in
    let inside : (leb 1 n && leb n 9999) ≡ true = ground arith in
    (record { nameplate = n; words = ws }, rw (inside, ended, three))
