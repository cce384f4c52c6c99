-- ===== src/Rendezvous/Nameplate/Canonical.antt =====
-- `Nameplate::parse` of crates/rendezvous/src/mailbox.rs and the decimal texts.
use worddrop.Base.{
  ℕ, ◌+◌, ◌-◌, ◌*◌, ◌<◌, ◌≡◌, refl, sym, ap, ◌∙◌, ◌↔◌, true, false, ◌&&◌, [], ◌∷◌, ◌++◌, Option,
  none, some, Text, all, byte_len, utf8_width, ◌≢◌, lt→ltb, ok, ltb, ◌==◌, arith, &&_split,
}
use worddrop.Base.Decimal.{
  is_ascii_digit, to_string, parse_digits, parse_u32, u32_limit, to_string-all, to_string_head,
  to_string_digit, parse_digits-to_string, parse_digits-to_string_self,
}
use worddrop.Rendezvous.Nameplate.{Nameplate, IsNameplate, parse, in_range}

-- A text that begins with a digit has no sign, so `parse_u32` reads its digits.
pub parse_u32_digit :
    (c : ℕ) (s : Text) → is_ascii_digit c ≡ true → parse_u32 (c ∷ s) ≡ parse_digits 0 (c ∷ s)
unfolding parse_u32
parse_u32_digit c [] h = refl
parse_u32_digit c (d ∷ s) h = ground arith

in_range_ok : (value : ℕ) → IsNameplate value → in_range (some value) ≡ ok value
unfolding in_range
in_range_ok value h = ground arith

in_range_inv : (o : Option ℕ) (n : Nameplate) → in_range o ≡ ok n → (o ≡ some n) × IsNameplate n
unfolding in_range
in_range_inv none n h = ground arith
in_range_inv (some v) n h = ground arith

module _ (c : ℕ) (s : Text) (n : Nameplate) where
  accept :
      all is_ascii_digit (c ∷ s) ≡ true
      → b'0' < c
      → parse_u32 (c ∷ s) ≡ some n
      → IsNameplate n
      → parse (c ∷ s) ≡ ok n
  unfolding parse
  accept digit first value h = rw (value, in_range_ok n h) (ground arith)

  parse-printed : IsNameplate n → to_string n ≡ c ∷ s → b'0' < c → parse (to_string n) ≡ ok n
  parse-printed h eq first = rw eq (accept digit first (parse_u32_digit c s head ∙ value) h)
    where
      digit : all is_ascii_digit (c ∷ s) ≡ true
      digit = rw eq at (to_string-all n)

      head : is_ascii_digit c ≡ true
      head = (&&_split (is_ascii_digit c) (all is_ascii_digit s) digit).0

      value : parse_digits 0 (c ∷ s) ≡ some n
      value = rw eq at (parse_digits-to_string_self n (omega arith))

-- The printed form of a nameplate is accepted, and read back as the nameplate.
pub parse-to_string : (n : Nameplate) → IsNameplate n → parse (to_string n) ≡ ok n
parse-to_string n h =
    let (c, s, eq, first) = to_string_head n (omega arith) in parse-printed c s n h eq first

unfold_parse :
    (c : ℕ) (s : Text) (n : Nameplate)
    → parse (c ∷ s) ≡ ok n
    → (all is_ascii_digit (c ∷ s) ≡ true)
      × ((ltb 1 (byte_len (c ∷ s)) && (c == b'0')) ≡ false)
      × (in_range (parse_u32 (c ∷ s)) ≡ ok n)
unfolding parse
unfold_parse c s n h = ground arith

width-pos : (c : ℕ) → 0 < utf8_width c
width-pos c = ground arith

two_bytes : (c d : ℕ) (s : Text) → 1 < byte_len (c ∷ d ∷ s)
two_bytes c d s = omega (arith, width-pos c, width-pos d)

first_round :
    (c : ℕ) (s : Text) (n : ℕ)
    → is_ascii_digit c ≡ true
    → parse_digits 0 (c ∷ s) ≡ some n
    → parse_digits (c - b'0') s ≡ some n
unfolding parse_digits
first_round c s n digit value =
    let small : (is_ascii_digit c && ltb (0 * 10 + (c - b'0')) u32_limit) ≡ true = ground arith in
    let next : 0 * 10 + (c - b'0') ≡ c - b'0' = omega arith in rw next at (rw small at value)

-- A first digit `0` stands alone, and then the value is 0.
nonzero_head :
    (c : ℕ) (s : Text) (n : ℕ)
    → (ltb 1 (byte_len (c ∷ s)) && (c == b'0')) ≡ false
    → parse_digits (c - b'0') s ≡ some n
    → 0 < n
    → c ≢ b'0'
unfolding parse_digits
nonzero_head c [] n lead value pos zero_head = ground arith
nonzero_head c (d ∷ s) n lead value pos zero_head =
    let long : ltb 1 (byte_len (c ∷ d ∷ s)) ≡ true = lt→ltb _ _ (two_bytes c d s) in
    cc (rw (long, zero_head) at lead)

-- The digits after a first digit that is not `0`, and the single digit `0`.
canonical_of_digits :
    (c : ℕ) (s : Text) (n : ℕ)
    → is_ascii_digit c ≡ true
    → (ltb 1 (byte_len (c ∷ s)) && (c == b'0')) ≡ false
    → parse_digits 0 (c ∷ s) ≡ some n
    → 0 < n
    → c ∷ s ≡ to_string n
canonical_of_digits c s n digit lead value pos =
    let rest = first_round c s n digit value in
    let nonzero = nonzero_head c s n lead rest pos in
    let bound : (0 < c - b'0') × (c - b'0' < 10) × (b'0' + (c - b'0') ≡ c) =
      (ground arith, ground arith, ground arith) in
    sym (
      parse_digits-to_string (c - b'0') s bound.0 rest
      ∙ ap (λ x. x ++ s) (to_string_digit (c - b'0') bound.1)
      ∙ ap (λ x. x ∷ s) bound.2)

parse_inv : (raw : Text) (n : Nameplate) → parse raw ≡ ok n → (raw ≡ to_string n) × IsNameplate n
parse_inv [] n h = absurd (unfold parse in cc)
parse_inv (c ∷ s) n h =
    let (digit, lead, range) = unfold_parse c s n h in
    let head : is_ascii_digit c ≡ true =
      (&&_split (is_ascii_digit c) (all is_ascii_digit s) digit).0 in
    let (value, bounds) = in_range_inv (parse_u32 (c ∷ s)) n range in
    (
      canonical_of_digits c s n head lead (sym (parse_u32_digit c s head) ∙ value) (omega arith),
      bounds,
    )

-- `parse` accepts a text as the nameplate `n` exactly when the text is the decimal form of `n`
-- and 1 ≤ n ≤ 9999.
pub parse_iff :
    (raw : Text) (n : Nameplate) → (parse raw ≡ ok n) ↔ ((raw ≡ to_string n) × IsNameplate n)
parse_iff raw n = (parse_inv raw n, λ h. rw h.0 (parse-to_string n h.1))
