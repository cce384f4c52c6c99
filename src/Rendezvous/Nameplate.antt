-- ===== src/Rendezvous/Nameplate.antt =====
-- `Nameplate` and its parser, crates/rendezvous/src/mailbox.rs. A `Nameplate` is the number that
-- the newtype wraps; its invariant is `IsNameplate`.
pub mod Canonical
use worddrop.Base.{
  ℕ, ◌≤◌, ◌≡◌, Bool, not, ◌&&◌, List, [], ◌∷◌, Option, none, some, Text, codes, is_empty, all,
  length, byte_len, Result, ok, err, ltb, leb, ◌==◌, if◌then◌else◌,
}
use worddrop.Base.Decimal.{is_ascii_digit, parse_u32}

abbrev pub nameplate_min : ℕ
nameplate_min = 1

abbrev pub nameplate_max : ℕ
nameplate_max = 9999

abbrev pub Nameplate : Type 0
Nameplate = ℕ

abbrev pub IsNameplate : Nameplate → Type 0
IsNameplate n = (nameplate_min ≤ n) × (n ≤ nameplate_max)

pub data NameplateError : Type 0 where
  empty not_numeric leading_zero out_of_range : NameplateError

abbrev pub message : NameplateError → Text
message empty = codes "nameplate is empty"
message not_numeric = codes "nameplate must be numeric digits only"
message leading_zero = codes "nameplate must not have leading zeros"
message out_of_range = codes "nameplate must be between 1 and 9999"

abbrev pub starts_with_zero : Text → Bool
starts_with_zero [] = Bool.false
starts_with_zero (c ∷ s) = c == b'0'

unfoldable pub in_range : Option ℕ → Result NameplateError Nameplate
in_range none = err not_numeric
in_range (some value) =
    if leb nameplate_min value && leb value nameplate_max then ok value else err out_of_range

-- `Nameplate::parse`
unfoldable pub parse : Text → Result NameplateError Nameplate
parse raw =
    if is_empty raw
    then err empty
    else if not (all is_ascii_digit raw)
    then err not_numeric
    else if ltb 1 (byte_len raw) && starts_with_zero raw
    then err leading_zero
    else in_range (parse_u32 raw)
