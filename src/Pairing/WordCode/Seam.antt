-- ===== src/Pairing/WordCode/Seam.antt =====
-- `WordCode::split`, crates/core/src/pairing/wordcode.rs: the seam between what the server sees
-- and the secret words, against `validate`.
use worddrop.Base.{
  ℕ, ◌≡◌, refl, Bool, true, false, not, ◌||◌, [], ◌∷◌, ◌++◌, some, Text, all, is_empty, contains,
  join, ok, ◌==◌, Bool-cases, inl, inr, arith,
}
use worddrop.Base.Decimal.{to_string, is_ascii_digit}
use worddrop.Rendezvous.Nameplate
use worddrop.Rendezvous.Nameplate.{IsNameplate}
use worddrop.Rendezvous.Nameplate.Canonical.{parse-to_string}
use worddrop.Pairing.Wordlist.{is_word-plain}
use worddrop.Pairing.WordCode.{
  WordCode, hyphen, split_once, parse_nameplate, split_code, validate, password, IsWordCode,
}
use worddrop.Pairing.WordCode.Validate.{validate_sound, digits_plain}

-- Splitting at the first separator takes what stands before it.
split_once-append :
    (sep : ℕ) (p s : Text) → contains sep p ≡ false → split_once sep (p ++ sep ∷ s) ≡ some (p, s)
unfolding split_once
split_once-append sep [] s h = ground arith
split_once-append sep (c ∷ p) s h = elim (Bool-cases (c == sep)) [
  | inl q ↦ absurd (ground arith)
  | inr q ↦ rw (q, split_once-append sep p s (rw q at h))
]

some_injective {ℓ} : {A : Type ℓ} {x y : A} → some x ≡ some y → x ≡ y
some_injective h = ground arith

number_plain : (p : Text) (n : ℕ) → parse_nameplate p ≡ ok n → all is_ascii_digit p ≡ true
unfolding parse_nameplate
number_plain p n h = elim (Bool-cases (is_empty p || not (all is_ascii_digit p))) [
  | inl q ↦ absurd (ground (arith, rw q at h))
  | inr q ↦ second (is_empty p) (all is_ascii_digit p) q
]
  where
    second : (a b : Bool) → (a || not b) ≡ false → b ≡ true
    second a b k = ground arith

password_nonempty : (c : WordCode) → IsWordCode c → is_empty (password c) ≡ false
unfolding password
password_nonempty c v = go c.words.0 (is_word-plain c.words.0 v.first).0
  where
    go :
        (w : Text)
        → is_empty w ≡ false
        → is_empty (w ++ hyphen ∷ join hyphen (c.words.1 ∷ c.words.2 ∷ [])) ≡ false
    go [] h = ground arith
    go (x ∷ w) h = refl

-- On a code that `validate` accepts, `split` sends the same nameplate to the server and keeps the
-- words of the code as the password, and the server's parser accepts the printed nameplate.
pub split_code-validate :
    (s : Text) (c : WordCode)
    → validate s ≡ ok c
    → (split_code s ≡ ok (c.nameplate, password c))
      × (Nameplate.parse (to_string c.nameplate) ≡ ok c.nameplate)
unfolding split_code
split_code-validate s c h =
    let (v, (p, shape, number), again) = validate_sound s c h in
    let seam =
      split_once-append hyphen p (password c)
        (digits_plain p (number_plain p c.nameplate number)) in
    (rw (shape, seam, password_nonempty c v, number), parse-to_string c.nameplate (v.low, v.high))
