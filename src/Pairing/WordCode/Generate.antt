-- ===== src/Pairing/WordCode/Generate.antt =====
-- The codes that `WordCode::generate` makes, crates/core/src/pairing/wordcode.rs.
pub mod Draws
use worddrop.Base.{
  some_injective, ℕ, zero, suc, ◌+◌, ◌≤◌, ◌<◌, ◌≡◌, ◌≢◌, refl, sym, ap, ◌∙◌, true, false, ◌&&◌,
  List, [], ◌∷◌, ◌++◌, some, Text, any, length, text_eq, text_eq_iff, text_eq_self, Result, ok, ltb,
  leb, ◌==◌, if◌then◌else◌, Bool-cases, Option-cases, inl, inr, ◌⊎◌, ==_iff, any-append, arith,
}
use mathlib.Core.Path.{subst}
use worddrop.Rendezvous.Nameplate.{IsNameplate}
use worddrop.Pairing.Wordlist.{words, is_word}
use worddrop.Pairing.WordCode.{
  Words, WordCode, WordCodeError, validate, show, IsWordCode, word_count, generate, pick_words,
  get_word, three_words,
}
use worddrop.Pairing.WordCode.Validate.{validate-show, code_or}

-- What the loop of `generate` has picked: at most three words of the list, all different.
abbrev IsPicked : List Text → Type 0
IsPicked [] = Unit
IsPicked (a ∷ []) = is_word a ≡ true
IsPicked (a ∷ b ∷ []) = (is_word a ≡ true) × (is_word b ≡ true) × (a ≢ b)
IsPicked (a ∷ b ∷ c ∷ []) =
    (is_word a ≡ true) × (is_word b ≡ true) × (is_word c ≡ true) × (a ≢ b) × (a ≢ c) × (b ≢ c)
IsPicked (a ∷ b ∷ c ∷ d ∷ ws) = ⊥

get_word-any :
    (ws : List Text) (i : ℕ) (w : Text) → get_word ws i ≡ some w → any (λ v. text_eq v w) ws ≡ true
get_word-any [] i w h = absurd (ground arith)
get_word-any (v ∷ ws) zero w h = let same : v ≡ w = ground arith in rw (same, text_eq_self w)
get_word-any (v ∷ ws) (suc i) w h = ground (arith, get_word-any ws i w h)

get_word-is_word : (i : ℕ) (w : Text) → get_word words i ≡ some w → is_word w ≡ true
unfolding is_word
get_word-is_word i w h = get_word-any words i w h

ok_injective : {x y : WordCode} → ◌≡◌ {A = Result WordCodeError WordCode} (ok x) (ok y) → x ≡ y
ok_injective {x} h = ap (code_or x) h

differ : (a w : Text) → text_eq a w ≡ false → a ≢ w
differ a w h e = ground (arith, (text_eq_iff a w).1 e)

push-IsPicked :
    (ws : List Text) (w : Text)
    → IsPicked ws
    → ltb (length ws) word_count ≡ true
    → is_word w ≡ true
    → any (λ v. text_eq v w) ws ≡ false
    → IsPicked (ws ++ w ∷ [])
push-IsPicked [] w p l h n = h
push-IsPicked (a ∷ []) w p l h n = (p, h, differ a w (ground arith))
push-IsPicked (a ∷ b ∷ []) w p l h n =
    (p.0, p.1, h, p.2, differ a w (ground arith), differ b w (ground arith))
push-IsPicked (a ∷ b ∷ c ∷ ws) w p l h n = absurd (ground arith)

pick_words-IsPicked :
    (rounds : ℕ) (draw : ℕ → ℕ) (i : ℕ) (picked result : List Text)
    → IsPicked picked
    → pick_words rounds draw i picked ≡ some result
    → IsPicked result
unfolding pick_words
pick_words-IsPicked zero draw i picked result p h =
    elim (Bool-cases (ltb (length picked) word_count)) [
      | inl q ↦ absurd (cc (rw q at h))
      | inr q ↦ subst IsPicked (some_injective (rw q at h)) p
    ]
pick_words-IsPicked (suc rounds) draw i picked result p h =
    elim (Bool-cases (ltb (length picked) word_count)) [
      | inr q ↦ subst IsPicked (some_injective (rw q at h)) p
      | inl q ↦ elim (Option-cases (get_word words (draw i))) [
        | inl none_left ↦ absurd (cc (rw (q, none_left) at h))
        | inr (w, found) ↦
            let drawn = get_word-is_word (draw i) w found in
            elim (Bool-cases (any (λ v. text_eq v w) picked)) [
              | inl old ↦
                  pick_words-IsPicked rounds draw (suc i) picked result p (rw (q, found, old) at h)
              | inr new ↦
                  pick_words-IsPicked rounds draw (suc i) (picked ++ w ∷ []) result
                    (push-IsPicked picked w p q drawn new) (rw (q, found, new) at h)
            ]
      ]
    ]

code_of_picked :
    (n : ℕ) (picked : List Text) (ws : Words)
    → IsNameplate n
    → IsPicked picked
    → three_words picked ≡ some ws
    → IsWordCode (record { nameplate = n; words = ws })
code_of_picked n (a ∷ b ∷ c ∷ []) ws r p h =
    subst (λ (x : Words). IsWordCode (record { nameplate = n; words = x })) (some_injective h)
      (record {
        low = r.0;
        high = r.1;
        first = p.0;
        second = p.1;
        third = p.2;
        first_second = p.3;
        first_third = p.4;
        second_third = p.5;
      })
code_of_picked n [] ws r p h = absurd (cc h)
code_of_picked n (a ∷ []) ws r p h = absurd (cc h)
code_of_picked n (a ∷ b ∷ []) ws r p h = absurd (cc h)
code_of_picked n (a ∷ b ∷ c ∷ d ∷ r') ws r p h = absurd p

-- A code that `generate` makes for `n` is well-formed, has the nameplate `n`, and is read back
-- from its printed form.
pub generate_sound :
    (rounds n : ℕ) (draw : ℕ → ℕ) (c : WordCode)
    → generate rounds n draw ≡ some (ok c)
    → (c.nameplate ≡ n) × IsWordCode c × (validate (show c) ≡ ok c)
unfolding generate
generate_sound rounds n draw c h = elim (Bool-cases (leb 1 n && leb n 9999)) [
  | inr q ↦ absurd (ground (arith, rw q at h))
  | inl q ↦
      let range : IsNameplate n = (ground arith, ground arith) in
      elim (Option-cases (pick_words rounds draw 0 [])) [
        | inl stuck ↦ absurd (cc (rw (q, stuck) at h))
        | inr (picked, ended) ↦ elim (Option-cases (three_words picked)) [
          | inl few ↦ absurd (cc (rw (q, ended, few) at h))
          | inr (ws, three) ↦
              let made = ok_injective (some_injective (rw (q, ended, three) at h)) in
              let v =
                code_of_picked n picked ws range
                  (pick_words-IsPicked rounds draw 0 [] picked tt ended) three in
              let good = subst IsWordCode made v in
              (ap (λ (x : WordCode). x.nameplate) (sym made), good, validate-show c good)
        ]
      ]
]
