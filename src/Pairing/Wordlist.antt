-- ===== src/Pairing/Wordlist.antt =====
-- `WORDS`, crates/core/src/pairing/wordlist.rs.
use Prim.Native.String.{String}
use worddrop.Base.{
  ◌≡◌, refl, Bool, true, false, not, ◌&&◌, List, [], ◌∷◌, Text, codes, map, all, any, length,
  is_empty, contains, text_eq, text_eq_iff, &&_split, not-true, Bool-cases, inl, inr, arith,
}

abbrev word_texts : List String
word_texts =
    "adroitness" ∷ "adviser" ∷ "aftermath" ∷ "aggregate" ∷ "alkali" ∷ "almighty" ∷ "amulet"
    ∷ "amusement" ∷ "antenna" ∷ "applicant" ∷ "apollo" ∷ "armistice" ∷ "article" ∷ "asteroid"
    ∷ "atlantic" ∷ "atmosphere" ∷ "autopsy" ∷ "babylon" ∷ "backwater" ∷ "barbecue" ∷ "belowground"
    ∷ "bifocals" ∷ "bodyguard" ∷ "bookseller" ∷ "borderline" ∷ "bottomless" ∷ "bradbury" ∷ "bravado"
    ∷ "brazilian" ∷ "breakaway" ∷ "burlington" ∷ "businessman" ∷ "butterfat" ∷ "camelot"
    ∷ "candidate" ∷ "cannonball" ∷ "capricorn" ∷ "caravan" ∷ "caretaker" ∷ "celebrate" ∷ "cellulose"
    ∷ "certify" ∷ "chambermaid" ∷ "cherokee" ∷ "chicago" ∷ "clergyman" ∷ "coherence" ∷ "combustion"
    ∷ "commando" ∷ "company" ∷ "component" ∷ "concurrent" ∷ "confidence" ∷ "conformist"
    ∷ "congregate" ∷ "consensus" ∷ "consulting" ∷ "corporate" ∷ "corrosion" ∷ "councilman"
    ∷ "crossover" ∷ "crucifix" ∷ "cumbersome" ∷ "customer" ∷ "dakota" ∷ "decadence" ∷ "december"
    ∷ "decimal" ∷ "designing" ∷ "detector" ∷ "detergent" ∷ "determine" ∷ "dictator" ∷ "dinosaur"
    ∷ "direction" ∷ "disable" ∷ "disbelief" ∷ "disruptive" ∷ "distortion" ∷ "document" ∷ "embezzle"
    ∷ "enchanting" ∷ "enrollment" ∷ "enterprise" ∷ "equation" ∷ "equipment" ∷ "escapade" ∷ "eskimo"
    ∷ "everyday" ∷ "examine" ∷ "existence" ∷ "exodus" ∷ "fascinate" ∷ "filament" ∷ "finicky"
    ∷ "forever" ∷ "fortitude" ∷ "frequency" ∷ "gadgetry" ∷ "galveston" ∷ "getaway" ∷ "glossary"
    ∷ "gossamer" ∷ "graduate" ∷ "gravity" ∷ "guitarist" ∷ "hamburger" ∷ "hamilton" ∷ "handiwork"
    ∷ "hazardous" ∷ "headwaters" ∷ "hemisphere" ∷ "hesitate" ∷ "hideaway" ∷ "holiness" ∷ "hurricane"
    ∷ "hydraulic" ∷ "impartial" ∷ "impetus" ∷ "inception" ∷ "indigo" ∷ "inertia" ∷ "infancy"
    ∷ "inferno" ∷ "informant" ∷ "insincere" ∷ "insurgent" ∷ "integrate" ∷ "intention" ∷ "inventive"
    ∷ "istanbul" ∷ "jamaica" ∷ "jupiter" ∷ "leprosy" ∷ "letterhead" ∷ "liberty" ∷ "maritime"
    ∷ "matchmaker" ∷ "maverick" ∷ "medusa" ∷ "megaton" ∷ "microscope" ∷ "microwave" ∷ "midsummer"
    ∷ "millionaire" ∷ "miracle" ∷ "misnomer" ∷ "molasses" ∷ "molecule" ∷ "montana" ∷ "monument"
    ∷ "mosquito" ∷ "narrative" ∷ "nebula" ∷ "newsletter" ∷ "norwegian" ∷ "october" ∷ "ohio"
    ∷ "onlooker" ∷ "opulent" ∷ "orlando" ∷ "outfielder" ∷ "pacific" ∷ "pandemic" ∷ "pandora"
    ∷ "paperweight" ∷ "paragon" ∷ "paragraph" ∷ "paramount" ∷ "passenger" ∷ "pedigree" ∷ "pegasus"
    ∷ "penetrate" ∷ "perceptive" ∷ "performance" ∷ "pharmacy" ∷ "phonetic" ∷ "photograph"
    ∷ "pioneer" ∷ "pocketful" ∷ "politeness" ∷ "positive" ∷ "potato" ∷ "processor" ∷ "provincial"
    ∷ "proximate" ∷ "puberty" ∷ "publisher" ∷ "pyramid" ∷ "quantity" ∷ "racketeer" ∷ "rebellion"
    ∷ "recipe" ∷ "recover" ∷ "repellent" ∷ "replica" ∷ "reproduce" ∷ "resistor" ∷ "responsive"
    ∷ "retraction" ∷ "retrieval" ∷ "retrospect" ∷ "revenue" ∷ "revival" ∷ "revolver" ∷ "sandalwood"
    ∷ "sardonic" ∷ "saturday" ∷ "savagery" ∷ "scavenger" ∷ "sensation" ∷ "sociable" ∷ "souvenir"
    ∷ "specialist" ∷ "speculate" ∷ "stethoscope" ∷ "stupendous" ∷ "supportive" ∷ "surrender"
    ∷ "suspicious" ∷ "sympathy" ∷ "tambourine" ∷ "telephone" ∷ "therapist" ∷ "tobacco" ∷ "tolerance"
    ∷ "tomorrow" ∷ "torpedo" ∷ "tradition" ∷ "travesty" ∷ "trombonist" ∷ "truncated" ∷ "typewriter"
    ∷ "ultimate" ∷ "undaunted" ∷ "underfoot" ∷ "unicorn" ∷ "unify" ∷ "universe" ∷ "unravel"
    ∷ "upcoming" ∷ "vacancy" ∷ "vagabond" ∷ "vertigo" ∷ "virginia" ∷ "visitor" ∷ "vocalist"
    ∷ "voyager" ∷ "warranty" ∷ "waterloo" ∷ "whimsical" ∷ "wichita" ∷ "wilmington" ∷ "wyoming"
    ∷ "yesteryear" ∷ "yucatan" ∷ []

unfoldable pub words : List Text
words = map codes word_texts

-- `WORDS.contains(&word)`
unfoldable pub is_word : Text → Bool
unfolding words
is_word w = any (λ v. text_eq v w) words

words_count : length words ≡ 256
unfolding words
words_count = refl

-- Neither empty nor hyphenated.
abbrev pub is_plain : Text → Bool
is_plain w = not (is_empty w) && not (contains b'-' w)

pub words_plain : all is_plain words ≡ true
unfolding words
words_plain = refl

abbrev distinct : List Text → Bool
distinct [] = true
distinct (w ∷ ws) = not (any (λ v. text_eq v w) ws) && distinct ws

words_distinct : distinct words ≡ true
unfolding words
words_distinct = refl

all-any :
    (p : Text → Bool) (ws : List Text) (w : Text)
    → all p ws ≡ true
    → any (λ v. text_eq v w) ws ≡ true
    → p w ≡ true
all-any p [] w h k = absurd (ground arith)
all-any p (v ∷ ws) w h k = elim (Bool-cases (text_eq v w)) [
  | inl q ↦ rw (← (text_eq_iff v w).0 q) ((&&_split (p v) (all p ws) h).0)
  | inr q ↦ all-any p ws w (&&_split (p v) (all p ws) h).1 (rw q at k)
]

-- A word of the list is neither empty nor hyphenated.
pub is_word-plain : (w : Text) → is_word w ≡ true → (is_empty w ≡ false) × (contains b'-' w ≡ false)
unfolding is_word
is_word-plain w h =
    let both = &&_split _ _ (all-any is_plain words w words_plain h) in
    (not-true (is_empty w) both.0, not-true (contains b'-' w) both.1)
