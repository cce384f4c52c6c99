-- ===== src/Client/Http/Response.antt =====
-- A well-formed response of a server as `HttpBackend` of crates/cli/src/rendezvous_client.rs reads it.
use worddrop.Base.{
  ℕ, ◌<◌, ◌≡◌, refl, ap, ◌∙◌, Bool, true, false, List, [], ◌∷◌, ◌++◌, Option, some, Text, all,
  &&_split, append_assoc, append_nil, is_whitespace, lt→ltb, ◌==◌, if◌then◌else◌, Bool-cases,
  false-ne-true, inl, inr, ok, arith,
}
use worddrop.Base.Decimal.{
  to_string, is_ascii_digit, to_string-all, to_string_head, parse_u32, parse_digits-to_string_self,
}
use worddrop.Rendezvous.Nameplate.Canonical.{parse_u32_digit}
use worddrop.Client.Http.{
  cr, lf, space, line_end, starts_blank, split_head, before_lf, strip_cr, has_lf, line_of,
  first_line, second_word, status_of, parse_u16, with_head, parse_response, word_of, skip_space,
  after_word, non_empty, and_then, with_status,
}

-- A line has no carriage return and no line feed.
abbrev pub is_line : Text → Bool
is_line = all (λ c. if c == cr then false else if c == lf then false else true)

-- The header lines, each behind a line end.
abbrev pub header : List Text → Text
header [] = []
header (l ∷ ls) = line_end ++ (l ++ header ls)

-- Header lines are lines, and none is empty.
abbrev pub AreHeaders : List Text → Type 0
AreHeaders [] = Unit
AreHeaders ([] ∷ ls) = ⊥
AreHeaders ((c ∷ l) ∷ ls) = (is_line (c ∷ l) ≡ true) × AreHeaders ls

not_blank : (c : ℕ) (s : Text) → (c == cr) ≡ false → starts_blank (c ∷ s) ≡ false
not_blank c [] h = refl
not_blank c (a ∷ []) h = refl
not_blank c (a ∷ b ∷ []) h = refl
not_blank c (a ∷ b ∷ d ∷ s) h = rw h

third_not_cr : (c : ℕ) (s : Text) → (c == cr) ≡ false → starts_blank (cr ∷ lf ∷ c ∷ s) ≡ false
third_not_cr c [] h = refl
third_not_cr c (d ∷ s) h = rw h

line_head :
    (c : ℕ) (l : Text)
    → is_line (c ∷ l) ≡ true
    → ((c == cr) ≡ false) × ((c == lf) ≡ false) × (is_line l ≡ true)
line_head c l h = ground arith

-- What follows a line of the head.
split_line :
    (l rest head body : Text)
    → is_line l ≡ true
    → split_head rest ≡ some (head, body)
    → split_head (l ++ rest) ≡ some (l ++ head, body)
unfolding split_head
split_line [] rest head body plain h = h
split_line (c ∷ l) rest head body plain h =
    let (not_cr, not_lf, more) = line_head c l plain in
    rw (not_blank c (l ++ rest) not_cr, split_line l rest head body more h)

split_header :
    (ls : List Text) (body : Text)
    → AreHeaders ls
    → split_head (header ls ++ (line_end ++ (line_end ++ body))) ≡ some (header ls, body)
unfolding split_head
split_header [] body h = refl
split_header ([] ∷ ls) body h = absurd h
split_header ((c ∷ l) ∷ ls) body h =
    let (not_cr, not_lf, more) = line_head c l h.0 in
    let rest = header ls ++ (line_end ++ (line_end ++ body)) in
    let inner = split_line (c ∷ l) rest (header ls) body h.0 (split_header ls body h.1) in
    rw (append_assoc l (header ls) (line_end ++ (line_end ++ body)))
      (rw (third_not_cr c (l ++ rest) not_cr, not_blank lf (c ∷ (l ++ rest)) refl, inner))

-- The first line of a head.
first_line_lem :
    (c : ℕ) (l : Text) (ls : List Text)
    → is_line (c ∷ l) ≡ true
    → first_line ((c ∷ l) ++ header ls) ≡ some (c ∷ l)
first_line_lem c l ls h = ap some (stripped (c ∷ l) ls h)
  where
    whole : (l : Text) → is_line l ≡ true → before_lf l ≡ l
    whole [] h = refl
    whole (c ∷ l) h = let (not_cr, not_lf, more) = line_head c l h in rw (not_lf, whole l more)

    to_end : (l rest : Text) → is_line l ≡ true → before_lf (l ++ (cr ∷ lf ∷ rest)) ≡ l ++ cr ∷ []
    to_end [] rest h = refl
    to_end (c ∷ l) rest h =
        let (not_cr, not_lf, more) = line_head c l h in rw (not_lf, to_end l rest more)

    no_lf : (l : Text) → is_line l ≡ true → has_lf l ≡ false
    no_lf [] h = refl
    no_lf (c ∷ l) h = let (not_cr, not_lf, more) = line_head c l h in rw (not_lf, no_lf l more)

    some_lf : (l rest : Text) → has_lf (l ++ (cr ∷ lf ∷ rest)) ≡ true
    some_lf [] rest = refl
    some_lf (c ∷ l) rest = elim (Bool-cases (c == lf)) [
      | inl e ↦ rw e refl
      | inr e ↦ rw (e, some_lf l rest)
    ]

    without : (l : Text) → strip_cr (l ++ cr ∷ []) ≡ l
    without [] = refl
    without (c ∷ []) = refl
    without (c ∷ d ∷ l) = rw (without (d ∷ l))

    stripped : (l : Text) (ls : List Text) → is_line l ≡ true → line_of (l ++ header ls) ≡ l
    stripped l [] h = ap line_of (append_nil l) ∙ rw (no_lf l h, whole l h)
    stripped l (m ∷ ls) h =
        rw (some_lf l (m ++ header ls)) (ap strip_cr (to_end l (m ++ header ls) h) ∙ without l)

-- Words.
abbrev pub is_word : Text → Bool
is_word = all (λ c. if is_whitespace c then false else true)

word_head :
    (c : ℕ) (w : Text) → is_word (c ∷ w) ≡ true → (is_whitespace c ≡ false) × (is_word w ≡ true)
word_head c w h = elim (Bool-cases (is_whitespace c)) [
  | inl q ↦ absurd (false-ne-true (rw q at h))
  | inr q ↦ (q, rw q at h)
]

word_of_lem : (w s : Text) → is_word w ≡ true → word_of (w ++ space ∷ s) ≡ w
word_of_lem [] s h = refl
word_of_lem (c ∷ w) s h = let (ink, more) = word_head c w h in rw (ink, word_of_lem w s more)

after_word_lem : (w s : Text) → is_word w ≡ true → after_word (w ++ space ∷ s) ≡ space ∷ s
after_word_lem [] s h = refl
after_word_lem (c ∷ w) s h = let (ink, more) = word_head c w h in rw (ink, after_word_lem w s more)

skip_space_lem :
    (c : ℕ) (w s : Text) → is_word (c ∷ w) ≡ true → skip_space ((c ∷ w) ++ s) ≡ (c ∷ w) ++ s
skip_space_lem c w s h = let (ink, more) = word_head c w h in rw ink

second_word_lem :
    (a b : ℕ) (v d reason : Text)
    → is_word (a ∷ v) ≡ true
    → is_word (b ∷ d) ≡ true
    → second_word ((a ∷ v) ++ space ∷ ((b ∷ d) ++ space ∷ reason)) ≡ some (b ∷ d)
second_word_lem a b v d reason hv hd =
    ap (λ (x : Text). non_empty (word_of (skip_space (after_word x))))
      (skip_space_lem a v (space ∷ ((b ∷ d) ++ space ∷ reason)) hv)
    ∙ ap (λ (x : Text). non_empty (word_of (skip_space x)))
        (after_word_lem (a ∷ v) ((b ∷ d) ++ space ∷ reason) hv)
    ∙ ap (λ (x : Text). non_empty (word_of x)) (skip_space_lem b d (space ∷ reason) hd)
    ∙ ap non_empty (word_of_lem (b ∷ d) reason hd)

digit_is_word : (s : Text) → all is_ascii_digit s ≡ true → is_word s ≡ true
digit_is_word [] h = refl
digit_is_word (c ∷ s) h =
    let (d, ds) = &&_split (is_ascii_digit c) (all is_ascii_digit s) h in
    let ink : is_whitespace c ≡ false = ground arith in rw (ink, digit_is_word s ds)

parse_u16-to_string : (n : ℕ) → 0 < n → n < 65536 → parse_u16 (to_string n) ≡ some n
parse_u16-to_string n pos small =
    let (c, s, shape, high) = to_string_head n pos in
    let digits : all is_ascii_digit (c ∷ s) ≡ true = rw shape at (to_string-all n) in
    let first = (&&_split (is_ascii_digit c) (all is_ascii_digit s) digits).0 in
    let read : parse_u32 (to_string n) ≡ some n =
      rw shape
        (parse_u32_digit c s first ∙ rw shape at (parse_digits-to_string_self n (omega arith))) in
    rw (read, lt→ltb n 65536 small)

digit_is_line : (s : Text) → all is_ascii_digit s ≡ true → is_line s ≡ true
digit_is_line [] h = refl
digit_is_line (c ∷ s) h =
    let (d, ds) = &&_split (is_ascii_digit c) (all is_ascii_digit s) h in
    ground (arith, digit_is_line s ds)

line-append : (l m : Text) → is_line l ≡ true → is_line m ≡ true → is_line (l ++ m) ≡ true
line-append [] m h k = k
line-append (c ∷ l) m h k =
    let (not_cr, not_lf, more) = line_head c l h in rw (not_cr, not_lf, line-append l m more k)

-- `HTTP/1.1 201 Created` and the like.
abbrev pub status_line : Text → ℕ → Text → Text
status_line version n reason = version ++ space ∷ (to_string n ++ space ∷ reason)

status_line-is_line :
    (version reason : Text) (n : ℕ)
    → is_line version ≡ true
    → is_line reason ≡ true
    → is_line (status_line version n reason) ≡ true
status_line-is_line version reason n hv hr =
    line-append version (space ∷ (to_string n ++ space ∷ reason)) hv (
      line-append (to_string n) (space ∷ reason) (digit_is_line (to_string n) (to_string-all n)) hr)

status_of_lem :
    (a : ℕ) (v reason : Text) (n : ℕ) (ls : List Text)
    → is_word (a ∷ v) ≡ true
    → is_line (a ∷ v) ≡ true
    → is_line reason ≡ true
    → 0 < n
    → n < 65536
    → status_of (status_line (a ∷ v) n reason ++ header ls) ≡ some n
status_of_lem a v reason n ls hw hl hr pos small =
    let (b, d, shape, high) = to_string_head n pos in
    let digits : is_word (b ∷ d) ≡ true = digit_is_word (b ∷ d) (rw shape at (to_string-all n)) in
    let word : second_word (status_line (a ∷ v) n reason) ≡ some (to_string n) =
      rw shape (second_word_lem a b v d reason hw digits) in
    ap (λ (o : Option Text). and_then o λ line. and_then (second_word line) parse_u16)
      (first_line_lem a (v ++ space ∷ (to_string n ++ space ∷ reason)) ls
        (status_line-is_line (a ∷ v) reason n hl hr))
    ∙ ap (λ (o : Option Text). and_then o parse_u16) word
    ∙ parse_u16-to_string n pos small

-- A response of a server: a version that is one word, a status from 1 to 65535, a reason, header
-- lines that are not empty, and a body. It is read as its status and its body.
pub parse_response-well_formed :
    {IoError : Type 0} (a : ℕ) (v reason body : Text) (n : ℕ) (ls : List Text)
    → is_word (a ∷ v) ≡ true
    → is_line (a ∷ v) ≡ true
    → is_line reason ≡ true
    → 0 < n
    → n < 65536
    → AreHeaders ls
    → parse_response {IoError = IoError}
        (status_line (a ∷ v) n reason ++ (header ls ++ (line_end ++ (line_end ++ body))))
      ≡ ok (n, body)
unfolding parse_response
parse_response-well_formed {IoError} a v reason body n ls hw hl hr pos small hs =
    let line = status_line (a ∷ v) n reason in
    let parted =
      split_line line (header ls ++ (line_end ++ (line_end ++ body))) (header ls) body
        (status_line-is_line (a ∷ v) reason n hl hr) (split_header ls body hs) in
    ap (with_head {IoError = IoError} (line ++ (header ls ++ (line_end ++ (line_end ++ body)))))
      parted
    ∙ ap (with_status (line ++ header ls) body) (status_of_lem a v reason n ls hw hl hr pos small)
