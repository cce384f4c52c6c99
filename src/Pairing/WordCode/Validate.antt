-- ===== src/Pairing/WordCode/Validate.antt =====
-- `WordCode::validate` and `Display`, crates/core/src/pairing/wordcode.rs, against each other.
use worddrop.Base.{
  ℕ, ◌≡◌, ◌≢◌, refl, sym, ap, ◌∙◌, true, false, not, ◌||◌, List, [], ◌∷◌, ◌++◌, Option, none, some,
  Text, all, is_empty, contains, text_eq, text_eq_iff, text_ne, split, join, Result, ok, err,
  >>=-eq-ok, ◌==◌, Bool-cases, &&_split, inl, inr, arith,
}
use mathlib.Core.Path.{subst}
use worddrop.Base.Decimal.{
  is_ascii_digit, to_string, parse_u32, to_string-all, to_string_head, parse_digits-to_string_self,
}
use worddrop.Base.Split.{split-append, split_plain, join-split}
use worddrop.Rendezvous.Nameplate.{IsNameplate}
use worddrop.Rendezvous.Nameplate.Canonical.{parse_u32_digit}
use worddrop.Pairing.Wordlist.{is_word, is_word-plain}
use worddrop.Pairing.WordCode.{
  Words, WordCode, WordCodeError, hyphen, parse_nameplate, number_in_range, read_words, read_code,
  read_parts, validate, password, show, IsWordCode,
}

number_in_range_inv :
    (part : Text) (o : Option ℕ) (n : ℕ) → number_in_range part o ≡ ok n → IsNameplate n
unfolding number_in_range
number_in_range_inv part none n h = absurd (ground arith)
number_in_range_inv part (some k) n h = ground arith

pub parse_nameplate_inv : (part : Text) (n : ℕ) → parse_nameplate part ≡ ok n → IsNameplate n
unfolding parse_nameplate
parse_nameplate_inv part n h = elim (Bool-cases (is_empty part || not (all is_ascii_digit part))) [
  | inl q ↦ absurd (ground (arith, rw q at h))
  | inr q ↦ number_in_range_inv part (parse_u32 part) n (rw q at h)
]

in_range_ok : (part : Text) (n : ℕ) → IsNameplate n → number_in_range part (some n) ≡ ok n
unfolding number_in_range
in_range_ok part n h = ground arith

-- Three parts that are read as words are three different words of the list.
read_words_inv :
    (a b c : Text) (ws : Words)
    → read_words 0 (a ∷ b ∷ c ∷ []) ([], [], []) ≡ ok ws
    → (ws ≡ (a, b, c))
      × (is_word a ≡ true)
      × (is_word b ≡ true)
      × (is_word c ≡ true)
      × (text_eq a b ≡ false)
      × (text_eq a c ≡ false)
      × (text_eq b c ≡ false)
unfolding read_words
read_words_inv a b c ws h = ground arith

text_eq-false : (s t : Text) → text_eq s t ≡ false → s ≢ t
text_eq-false s t h e = ground (arith, (text_eq_iff s t).1 e)

nonempty : (w : Text) → is_empty w ≡ false → text_eq [] w ≡ false
nonempty [] h = ground arith
nonempty (c ∷ w) h = refl

read_words_ok :
    (a b c : Text)
    → is_word a ≡ true
    → is_word b ≡ true
    → is_word c ≡ true
    → a ≢ b
    → a ≢ c
    → b ≢ c
    → read_words 0 (a ∷ b ∷ c ∷ []) ([], [], []) ≡ ok (a, b, c)
unfolding read_words
read_words_ok a b c ha hb hc ab ac bc =
    let na = nonempty a (is_word-plain a ha).0 in
    let nb = nonempty b (is_word-plain b hb).0 in
    let nc = nonempty c (is_word-plain c hc).0 in
    rw (ha, na, hb, text_ne a b ab, nb, hc, text_ne a c ac, text_ne b c bc, nc)

parse_nameplate_ok : (n : ℕ) → IsNameplate n → parse_nameplate (to_string n) ≡ ok n
unfolding parse_nameplate
parse_nameplate_ok n h = let (c, s, eq, first) = to_string_head n (omega arith) in at_head c s eq
  where
    at_head : (c : ℕ) (s : Text) → to_string n ≡ c ∷ s → parse_nameplate (to_string n) ≡ ok n
    at_head c s eq =
        let digits : all is_ascii_digit (c ∷ s) ≡ true = rw eq at (to_string-all n) in
        let value : parse_u32 (c ∷ s) ≡ some n =
          parse_u32_digit c s (&&_split (is_ascii_digit c) _ digits).0
          ∙ (rw eq at (parse_digits-to_string_self n (omega arith))) in
        rw (eq, value, digits) (in_range_ok (c ∷ s) n h)

pub digits_plain : (s : Text) → all is_ascii_digit s ≡ true → contains hyphen s ≡ false
digits_plain [] h = refl
digits_plain (c ∷ s) h =
    let both = &&_split (is_ascii_digit c) (all is_ascii_digit s) h in
    let other : (c == hyphen) ≡ false = ground (arith, both.0) in rw (other, digits_plain s both.1)

-- The parts of the printed code.
split-show :
    (c : WordCode)
    → IsWordCode c
    → split hyphen (show c) ≡ to_string c.nameplate ∷ c.words.0 ∷ c.words.1 ∷ c.words.2 ∷ []
unfolding show password
split-show c v =
    let w = c.words in
    split-append hyphen (to_string c.nameplate) (join hyphen (w.0 ∷ w.1 ∷ w.2 ∷ []))
      (digits_plain (to_string c.nameplate) (to_string-all c.nameplate))
    ∙ ap (◌∷◌ (to_string c.nameplate)) (
        split-append hyphen w.0 (join hyphen (w.1 ∷ w.2 ∷ [])) (is_word-plain w.0 v.first).1
        ∙ ap (◌∷◌ w.0) (
            split-append hyphen w.1 w.2 (is_word-plain w.1 v.second).1
            ∙ ap (◌∷◌ w.1) (split_plain hyphen w.2 (is_word-plain w.2 v.third).1)))

-- A well-formed code is read back from its printed form.
pub validate-show : (c : WordCode) → IsWordCode c → validate (show c) ≡ ok c
unfolding validate
validate-show c v =
    let w = c.words in
    rw (
      split-show c v,
      parse_nameplate_ok c.nameplate (v.low, v.high),
      read_words_ok w.0 w.1 w.2 v.first v.second v.third v.first_second v.first_third
          v.second_third,
    )

-- The parts `ps` are those of the code `c`, after a text of its nameplate.
abbrev Parts : List Text → WordCode → Type 0
Parts ps c =
    (p : Text) × (ps ≡ p ∷ c.words.0 ∷ c.words.1 ∷ c.words.2 ∷ [])
    × (parse_nameplate p ≡ ok c.nameplate)
    × IsWordCode c

abbrev pub code_or : WordCode → Result WordCodeError WordCode → WordCode
code_or d (ok c) = c
code_or d (err e) = d

read_code_inv :
    (p a b d : Text) (n : ℕ) (c : WordCode)
    → parse_nameplate p ≡ ok n
    → read_code (a ∷ b ∷ d ∷ []) n ≡ ok c
    → Parts (p ∷ a ∷ b ∷ d ∷ []) c
read_code_inv p a b d n c number h =
    let (ws, read, last) =
      >>=-eq-ok (read_words 0 (a ∷ b ∷ d ∷ []) ([], [], []))
        (λ x. ok (record { nameplate = n; words = x })) h in
    let (shape, ha, hb, hd, ab, ad, bd) = read_words_inv a b d ws read in
    let same : record { nameplate = n; words = (a, b, d) } ≡ c =
      ap (λ (x : Words). record { nameplate = n; words = x }) (sym shape)
      ∙ ap (code_or (record { nameplate = n; words = ws })) last in
    let range = parse_nameplate_inv p n number in
    subst (Parts (p ∷ a ∷ b ∷ d ∷ [])) same (
      p,
      refl,
      number,
      record {
        low = range.0;
        high = range.1;
        first = ha;
        second = hb;
        third = hd;
        first_second = text_eq-false a b ab;
        first_third = text_eq-false a d ad;
        second_third = text_eq-false b d bd;
      },
    )

read_parts_inv : (ps : List Text) (c : WordCode) → read_parts ps ≡ ok c → Parts ps c
unfolding read_parts
read_parts_inv [] c h = absurd (ground arith)
read_parts_inv (p ∷ []) c h = absurd (ground arith)
read_parts_inv (p ∷ a ∷ []) c h = absurd (ground arith)
read_parts_inv (p ∷ a ∷ b ∷ []) c h = absurd (ground arith)
read_parts_inv (p ∷ a ∷ b ∷ d ∷ []) c h =
    let (n, number, rest) = >>=-eq-ok (parse_nameplate p) (read_code (a ∷ b ∷ d ∷ [])) h in
    read_code_inv p a b d n c number rest
read_parts_inv (p ∷ a ∷ b ∷ d ∷ e ∷ r) c h = absurd (ground arith)

-- `validate` accepts well-formed codes only: a nameplate from 1 to 9999 and three different words
-- of the list. Its input is then the code's words after a text of its nameplate, all joined by
-- hyphens, and its printed form is read back as the same code.
pub validate_sound :
    (s : Text) (c : WordCode)
    → validate s ≡ ok c
    → IsWordCode c
      × ((p : Text) × (s ≡ p ++ hyphen ∷ password c) × (parse_nameplate p ≡ ok c.nameplate))
      × (validate (show c) ≡ ok c)
validate_sound s c h =
    let (p, parts, number, v) = read_parts_inv (split hyphen s) c (unfold validate in h) in
    (
      v,
      (p, sym (join-split hyphen s) ∙ unfold password in ap (join hyphen) parts, number),
      validate-show c v,
    )
