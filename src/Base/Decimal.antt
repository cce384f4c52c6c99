-- ===== src/Base/Decimal.antt =====
-- Decimal texts: `to_string` of an unsigned integer, and `str::parse::<u32>`.
use Prim.Native.Nat.{ℕ, zero, suc, ◌+◌, ◌-◌, ◌*◌, ◌/◌, ◌%◌, ◌^◌, ◌<◌}
use mathlib.Core.Path.{◌≡◌, refl, ap, ◌∙◌}
use mathlib.Core.Logic.{inl, inr}
use mathlib.Core.Bool.{Bool, true, ◌&&◌}
use mathlib.Core.Option.{Option, none, some}
use mathlib.Core.List.{[], ◌∷◌, ◌++◌, append_assoc, append-nil}
use native.Mathlib.Omega.{arith}
use worddrop.Base.Tests.{ltb, leb, ◌==◌, ltb→ge, lt→ltb, ge→ltb, if◌then◌else◌, Bool-cases}
use worddrop.Base.Lists.{all, all-append}
use worddrop.Base.Texts.{Text}

-- `u8::is_ascii_digit`
abbrev pub is_ascii_digit : ℕ → Bool
is_ascii_digit c = leb b'0' c && leb c b'9'

-- The digits of `n`, most significant first; `n + 1` rounds are enough.
unfoldable pub digits : ℕ → ℕ → Text
digits zero n = []
digits (suc f) n =
    let front = digits f (n / 10) in
    if ltb n 10 then (b'0' + n) ∷ [] else front ++ (b'0' + n % 10) ∷ []

unfoldable pub to_string : ℕ → Text
unfolding digits
to_string n = digits (suc n) n

abbrev pub u32_limit : ℕ
u32_limit = 2 ^ 32

-- The loop of `u32::from_str`: `none` is an overflow or a character that is no digit.
unfoldable pub parse_digits : ℕ → Text → Option ℕ
parse_digits acc [] = some acc
parse_digits acc (c ∷ s) =
    let rest = parse_digits (acc * 10 + (c - b'0')) s in
    if is_ascii_digit c && ltb (acc * 10 + (c - b'0')) u32_limit then rest else none

-- `str::parse::<u32>`: one leading `+` is accepted, and an empty text is not.
unfoldable pub parse_u32 : Text → Option ℕ
unfolding parse_digits
parse_u32 [] = none
parse_u32 (c ∷ []) = parse_digits 0 (c ∷ [])
parse_u32 (c ∷ d ∷ s) = if c == b'+' then parse_digits 0 (d ∷ s) else parse_digits 0 (c ∷ d ∷ s)

digits_fuel : (f g n : ℕ) → n < f → n < g → digits f n ≡ digits g n
unfolding digits
digits_fuel zero g n h k = absurd (omega arith)
digits_fuel (suc f) zero n h k = absurd (omega arith)
digits_fuel (suc f) (suc g) n h k = elim (Bool-cases (ltb n 10)) [
  | inl e ↦ rw (e)
  | inr e ↦ let big = ltb→ge n 10 e in rw (e, digits_fuel f g (n / 10) (omega arith) (omega arith))
]

pub to_string_digit : (n : ℕ) → n < 10 → to_string n ≡ (b'0' + n) ∷ []
unfolding to_string
to_string_digit n h = rw (lt→ltb n 10 h)

pub to_string_step :
    (n d : ℕ) → 0 < n → d < 10 → to_string (n * 10 + d) ≡ to_string n ++ (b'0' + d) ∷ []
unfolding to_string
to_string_step n d h k = rw (
  ge→ltb (n * 10 + d) 10 (omega arith),
  eq_div,
  eq_mod,
  digits_fuel (n * 10 + d) (suc n) n (omega arith) (omega arith),
)
  where
    eq_div : (n * 10 + d) / 10 ≡ n
    eq_div = omega arith

    eq_mod : (n * 10 + d) % 10 ≡ d
    eq_mod = omega arith

-- What is read after a non-zero prefix is the rest of the canonical text.
pub parse_digits-to_string :
    (acc : ℕ) (s : Text) {n : ℕ}
    → 0 < acc
    → parse_digits acc s ≡ some n
    → to_string n ≡ to_string acc ++ s
unfolding parse_digits
parse_digits-to_string acc [] {n} h e =
    let same : n ≡ acc = ground arith in rw append-nil (ap to_string same)
parse_digits-to_string acc (c ∷ s) {n} h e =
    elim (Bool-cases (is_ascii_digit c && ltb (acc * 10 + (c - b'0')) u32_limit)) [
      | inl t ↦
          let ih : to_string n ≡ to_string (acc * 10 + (c - b'0')) ++ s =
            parse_digits-to_string (acc * 10 + (c - b'0')) s (omega arith) (rw t at e) in
          let digit : (b'0' + (c - b'0') ≡ c) × (c - b'0' < 10) = (ground arith, ground arith) in
          ih
          ∙ ap (λ x. x ++ s) (to_string_step acc (c - b'0') h digit.1)
          ∙ append_assoc (to_string acc) ((b'0' + (c - b'0')) ∷ []) s
          ∙ ap (λ x. to_string acc ++ x ∷ s) digit.0
      | inr f ↦ absurd (cc (rw f at e))
    ]

pub parse_digits-append :
    (acc d : ℕ) (s : Text) (n : ℕ)
    → parse_digits acc s ≡ some n
    → d < 10
    → n * 10 + d < u32_limit
    → parse_digits acc (s ++ (b'0' + d) ∷ []) ≡ some (n * 10 + d)
unfolding parse_digits
parse_digits-append acc d [] n h k l = ground arith
parse_digits-append acc d (c ∷ s) n h k l =
    elim (Bool-cases (is_ascii_digit c && ltb (acc * 10 + (c - b'0')) u32_limit)) [
      | inl t ↦ rw t (parse_digits-append (acc * 10 + (c - b'0')) d s n (rw t at h) k l)
      | inr f ↦ absurd (cc (rw f at h))
    ]

parse_digits-digits : (f n : ℕ) → n < f → n < u32_limit → parse_digits 0 (digits f n) ≡ some n
unfolding digits
parse_digits-digits zero n h l = absurd (omega arith)
parse_digits-digits (suc f) n h l = elim (Bool-cases (ltb n 10)) [
  | inl e ↦ rw e (unfold parse_digits in ground arith)
  | inr e ↦
      let big = ltb→ge n 10 e in
      let ih = parse_digits-digits f (n / 10) (omega arith) (omega arith) in
      let value : n / 10 * 10 + n % 10 ≡ n = omega arith in
      rw e (
        parse_digits-append 0 (n % 10) (digits f (n / 10)) (n / 10) ih (omega arith) (omega arith)
        ∙ ap some value)
]

-- Reading what was printed.
pub parse_digits-to_string_self : (n : ℕ) → n < u32_limit → parse_digits 0 (to_string n) ≡ some n
unfolding to_string
parse_digits-to_string_self n h = parse_digits-digits (suc n) n (omega arith) h

digits-all : (f n : ℕ) → all is_ascii_digit (digits f n) ≡ true
unfolding digits
digits-all zero n = refl
digits-all (suc f) n = elim (Bool-cases (ltb n 10)) [
  | inl e ↦ rw e (ground arith)
  | inr e ↦ rw (e, all-append) (rw (digits-all f (n / 10)) (ground arith))
]

-- A printed number has digits only.
pub to_string-all : (n : ℕ) → all is_ascii_digit (to_string n) ≡ true
unfolding to_string
to_string-all n = digits-all (suc n) n

digits_head : (f n : ℕ) → 0 < n → n < f → (c : ℕ) × (s : Text) × (digits f n ≡ c ∷ s) × (b'0' < c)
unfolding digits
digits_head zero n h k = absurd (omega arith)
digits_head (suc f) n h k = elim (Bool-cases (ltb n 10)) [
  | inl e ↦ (b'0' + n, [], rw e, omega arith)
  | inr e ↦
      let big = ltb→ge n 10 e in
      let (c, s, eq, first) = digits_head f (n / 10) (omega arith) (omega arith) in
      (c, s ++ (b'0' + n % 10) ∷ [], rw (e, eq), first)
]

-- A printed positive number begins with a digit that is not `0`.
pub to_string_head : (n : ℕ) → 0 < n → (c : ℕ) × (s : Text) × (to_string n ≡ c ∷ s) × (b'0' < c)
unfolding to_string
to_string_head n h = digits_head (suc n) n h (omega arith)
