-- ===== src/Examples/Codes.antt =====
-- Word codes and handshake messages.
use worddrop.Base.{
  ℕ, zero, suc, ◌<◌, ◌≡◌, ◌≢◌, refl, false, List, [], ◌∷◌, ◌++◌, some, ok, Text, codes, arith, All,
  text_eq, text_eq_iff,
}
use worddrop.Base.Decimal.{to_string, parse_u32}
use worddrop.Rendezvous.Nameplate
use worddrop.Rendezvous.Nameplate.{IsNameplate}
use worddrop.Pairing.Wordlist.{words, is_word}
use worddrop.Pairing.WordCode.{
  WordCode, hyphen, validate, show, password, split_code, parse_nameplate, number_in_range,
  read_words, pick_words, get_word, generate, IsWordCode,
}
use worddrop.Pairing.WordCode.Validate.{validate_sound}
use worddrop.Pairing.WordCode.Seam.{split_code-validate}
use worddrop.Pairing.WordCode.Generate.{generate_sound}
use worddrop.Pairing.WordCode.Generate.Draws.{generate_total}

abbrev input : Text
input = codes "7-adroitness-adviser-aftermath"

abbrev pub code : WordCode
code = record { nameplate = 7; words = (codes "adroitness", codes "adviser", codes "aftermath") }

input_lem : validate input ≡ ok code
unfolding validate parse_nameplate number_in_range parse_u32 read_words is_word
input_lem = refl

validate_sound_example :
    IsWordCode code
    × ((p : Text) × (input ≡ p ++ hyphen ∷ password code) × (parse_nameplate p ≡ ok 7))
    × (validate (show code) ≡ ok code)
validate_sound_example = validate_sound input code input_lem

split_code-validate_example :
    (split_code input ≡ ok (7, password code)) × (Nameplate.parse (to_string 7) ≡ ok 7)
split_code-validate_example = split_code-validate input code input_lem

-- The generator draws the first word twice.
abbrev pub draws : ℕ → ℕ
draws zero = 0
draws (suc zero) = 0
draws (suc (suc zero)) = 1
draws (suc (suc (suc k))) = 2

draws_lem : (r : ℕ) → (w : Text) × (get_word words (draws r) ≡ some w)
unfolding words
draws_lem zero = (codes "adroitness", refl)
draws_lem (suc zero) = (codes "adroitness", refl)
draws_lem (suc (suc zero)) = (codes "adviser", refl)
draws_lem (suc (suc (suc k))) = (codes "aftermath", refl)

pub generated : generate 4 7 draws ≡ some (ok code)
unfolding generate pick_words words
generated = refl

generate_sound_example : (code.nameplate ≡ 7) × IsWordCode code × (validate (show code) ≡ ok code)
generate_sound_example = generate_sound 4 7 draws code generated

apart : (v w : Text) → text_eq v w ≡ false → v ≢ w
apart v w h e = absurd (ground (arith, (text_eq_iff v w).1 e))

first_draw : get_word words (draws 0) ≡ some (codes "adroitness")
unfolding words
first_draw = refl

third_draw : get_word words (draws 2) ≡ some (codes "adviser")
unfolding words
third_draw = refl

fourth_draw : get_word words (draws 3) ≡ some (codes "aftermath")
unfolding words
fourth_draw = refl

generate_total_example : (c : WordCode) × (generate 4 7 draws ≡ some (ok c))
generate_total_example =
    generate_total 4 7 draws (codes "adroitness") (codes "adviser") (codes "aftermath") 0 2 3
      (omega arith, omega arith) draws_lem
      (
        apart (codes "adroitness") (codes "adviser") refl,
        apart (codes "adroitness") (codes "aftermath") refl,
        apart (codes "adviser") (codes "aftermath") refl,
      )
      (omega arith, omega arith, omega arith) first_draw third_draw fourth_draw

abbrev zeros : ℕ → List ℕ
zeros zero = []
zeros (suc n) = 0 ∷ zeros n

zeros_small : (n : ℕ) → All (λ b. b < 256) (zeros n)
zeros_small zero = tt
zeros_small (suc n) = (omega arith, zeros_small n)

abbrev message : List ℕ
message = 0x53 ∷ 0xff ∷ zeros 31

abbrev token : List ℕ
token = 0x0a ∷ 0xb0 ∷ zeros 14
