-- ===== src/Pairing/WordCode.antt =====
-- Word codes, crates/core/src/pairing/wordcode.rs. The random generator is the sequence of its
-- draws; a draw outside the word list is the panic of an index out of bounds.
pub mod Validate
pub mod Seam
pub mod Generate
use worddrop.Base.{
  ℕ, zero, suc, ◌-◌, ◌≤◌, ◌<◌, ◌≡◌, ◌≢◌, Bool, true, false, not, ◌&&◌, ◌||◌, List, [], ◌∷◌, ◌++◌,
  Option, none, some, Text, all, any, length, is_empty, text_eq, split, join, Result, ok, err,
  ◌>>=◌, ltb, leb, ◌==◌, if◌then◌else◌,
}
use worddrop.Base.Decimal.{is_ascii_digit, to_string, parse_u32}
use worddrop.Pairing.Wordlist.{words, is_word}

abbrev pub nameplate_min : ℕ
nameplate_min = 1

abbrev pub nameplate_max : ℕ
nameplate_max = 9999

abbrev pub word_count : ℕ
word_count = 3

-- `[String; WORD_COUNT]`
abbrev pub Words : Type 0
Words = Text × Text × Text

pub record WordCode : Type 0 where
  pub nameplate : ℕ
  pub words : Words

pub data WordCodeError : Type 0 where
  missing_hyphen empty_words : WordCodeError
  invalid_nameplate unknown_word duplicate_word : Text → WordCodeError
  wrong_word_count : ℕ → WordCodeError

abbrev pub hyphen : ℕ
hyphen = b'-'

-- `str::split_once`
unfoldable pub split_once : ℕ → Text → Option (Text × Text)
split_once sep [] = none
split_once sep (c ∷ s) =
    let rest = split_once sep s in
    if c == sep then some ([], s) else elim rest [ none ↦ none | some p ↦ some (c ∷ p.0, p.1) ]

unfoldable pub number_in_range : Text → Option ℕ → Result WordCodeError ℕ
number_in_range part none = err (invalid_nameplate part)
number_in_range part (some n) =
    if leb nameplate_min n && leb n nameplate_max then ok n else err (invalid_nameplate part)

-- `parse_nameplate`
unfoldable pub parse_nameplate : Text → Result WordCodeError ℕ
parse_nameplate part =
    if is_empty part || not (all is_ascii_digit part)
    then err (invalid_nameplate part)
    else number_in_range part (parse_u32 part)

unfoldable pub split_parts : Option (Text × Text) → Result WordCodeError (ℕ × Text)
split_parts none = err missing_hyphen
split_parts (some (nameplate, rest)) =
    if is_empty rest then err empty_words else parse_nameplate nameplate >>= λ n. ok (n, rest)

-- `WordCode::split`
unfoldable pub split_code : Text → Result WordCodeError (ℕ × Text)
unfolding split_parts
split_code s = split_parts (split_once hyphen s)

unfoldable pub set_slot : ℕ → Text → Words → Words
set_slot zero w (a, b, c) = (w, b, c)
set_slot (suc zero) w (a, b, c) = (a, w, c)
set_slot (suc (suc i)) w (a, b, c) = (a, b, w)

abbrev pub is_taken : Text → Words → Bool
is_taken w (a, b, c) = text_eq a w || text_eq b w || text_eq c w

-- The loop of `validate` over the parts that should be words.
unfoldable pub read_words : ℕ → List Text → Words → Result WordCodeError Words
unfolding set_slot
read_words slot [] ws = ok ws
read_words slot (w ∷ rest) ws =
    if not (is_word w)
    then err (unknown_word w)
    else if is_taken w ws
    then err (duplicate_word w)
    else read_words (suc slot) rest (set_slot slot w ws)

abbrev pub read_code : List Text → ℕ → Result WordCodeError WordCode
read_code ps n = read_words 0 ps ([], [], []) >>= λ ws. ok (record { nameplate = n; words = ws })

unfoldable pub read_parts : List Text → Result WordCodeError WordCode
read_parts [] = err (wrong_word_count 0)
read_parts (p ∷ ps) =
    if not (length ps == word_count)
    then err (wrong_word_count (length ps))
    else parse_nameplate p >>= read_code ps

-- `WordCode::validate`
unfoldable pub validate : Text → Result WordCodeError WordCode
unfolding read_parts
validate s = read_parts (split hyphen s)

-- `WordCode::password`
unfoldable pub password : WordCode → Text
password c = join hyphen (c.words.0 ∷ c.words.1 ∷ c.words.2 ∷ [])

-- `Display` of a word code.
unfoldable pub show : WordCode → Text
show c = to_string c.nameplate ++ hyphen ∷ password c

abbrev pub get_word : List Text → ℕ → Option Text
get_word [] i = none
get_word (w ∷ ws) zero = some w
get_word (w ∷ ws) (suc i) = get_word ws i

unfoldable pub add_word : Option Text → List Text → Option (List Text)
add_word none picked = none
add_word (some w) picked = some (if any (λ v. text_eq v w) picked then picked else picked ++ w ∷ [])

abbrev pub and_then {ℓ κ} : {A : Type ℓ} {B : Type κ} → Option A → (A → Option B) → Option B
and_then none f = none
and_then (some a) f = f a

-- The loop of `generate`: `none` when the draws given do not end it, or one is out of bounds.
unfoldable pub pick_words : ℕ → (ℕ → ℕ) → ℕ → List Text → Option (List Text)
unfolding add_word
pick_words zero draw i picked = if ltb (length picked) word_count then none else some picked
pick_words (suc rounds) draw i picked =
    let next =
      and_then (add_word (get_word words (draw i)) picked) (pick_words rounds draw (suc i)) in
    if ltb (length picked) word_count then next else some picked

abbrev pub three_words : List Text → Option Words
three_words (a ∷ b ∷ c ∷ rest) = some (a, b, c)
three_words _ = none

-- `WordCode::generate`
unfoldable pub generate : ℕ → ℕ → (ℕ → ℕ) → Option (Result WordCodeError WordCode)
generate rounds n draw =
    if not (leb nameplate_min n && leb n nameplate_max)
    then some (err (invalid_nameplate (to_string n)))
    else and_then (pick_words rounds draw 0 []) λ picked.
      and_then (three_words picked) λ ws. some (ok (record { nameplate = n; words = ws }))

-- What a word code should be: a nameplate in range and three different words of the list.
pub record IsWordCode (c : WordCode) : Type 0 where
  pub low : nameplate_min ≤ c.nameplate
  pub high : c.nameplate ≤ nameplate_max
  pub first : is_word c.words.0 ≡ true
  pub second : is_word c.words.1 ≡ true
  pub third : is_word c.words.2 ≡ true
  pub first_second : c.words.0 ≢ c.words.1
  pub first_third : c.words.0 ≢ c.words.2
  pub second_third : c.words.1 ≢ c.words.2
