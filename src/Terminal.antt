-- ===== src/Terminal.antt =====
-- Progress without a terminal, `PlainBar` of crates/cli/src/ui.rs: what it prints. The clones of a
-- bar share its state. Floating-point numbers, and with them the texts of byte counts, are
-- parameters.
pub mod Steps
use worddrop.Base.{
  ℕ, ◌+◌, ◌-◌, ◌*◌, ◌/◌, ◌%◌, ◌^◌, Bool, true, false, not, ◌&&◌, ◌||◌, List, [], ◌∷◌, ◌++◌, Option,
  none, some, Text, codes, ltb, leb, ◌==◌, if◌then◌else◌,
}
use worddrop.Base.Decimal.{to_string}
use worddrop.Transfer.Progress.{at_most}

-- `human_bytes`, and what is asked of a speed in bytes for a second.
pub record Floats (Speed : Type 0) : Type 0 where
  pub human_bytes : ℕ → Text
  pub whole : Speed → ℕ
  pub is_positive : Speed → Bool
  -- The seconds that so many bytes take, rounded up.
  pub seconds : ℕ → Speed → ℕ

-- `PlainBar` and `PlainState`, without the instant of the last report.
pub record PlainBar : Type 0 where
  pub msg : Text
  pub total : ℕ
  pub last_reported : ℕ
  pub finished : Bool

abbrev pub plain_step_percent : ℕ
plain_step_percent = 5

-- A bar and the lines that it has printed.
pub record Screen : Type 0 where
  pub bar : PlainBar
  pub lines : List Text

-- `checked_mul`, `checked_div` and `unwrap_or`
abbrev pub shown_percent : ℕ → ℕ → ℕ
shown_percent position total =
    if ltb (position * 100) (2 ^ 64) && not (total == 0) then position * 100 / total else 100

-- The percentage of a step; the product of `u64` wraps.
abbrev pub percent : ℕ → ℕ → ℕ
percent position total = (position * 100) % 2 ^ 64 / total

-- `saturating_add`
abbrev pub next_step : ℕ → ℕ
next_step last = at_most (2 ^ 64 - 1) (last + plain_step_percent)

-- Whether `report_line` reports a position.
unfoldable pub reports : ℕ → PlainBar → Bool
reports position bar =
    if bar.finished
    then false
    else if bar.total == 0 || position == bar.last_reported
    then false
    else (leb bar.total position
        || leb (next_step (percent bar.last_reported bar.total)) (percent position bar.total))

module _ {Speed : Type 0} (floats : Floats Speed) where
  -- `progress_line`
  unfoldable pub progress_line : Text → ℕ → ℕ → Text
  progress_line msg position total =
      msg
      ++ (codes ": "
          ++ (floats.human_bytes position
              ++ (codes " / "
                  ++ (floats.human_bytes total
                      ++ (codes " ("
                          ++ (to_string (shown_percent position total) ++ codes "%)"))))))

  abbrev pub eta : ℕ → ℕ → Speed → Text
  eta position total speed =
      if ltb position total && floats.is_positive speed
      then codes " · ETA " ++ (to_string (floats.seconds (total - position) speed) ++ codes "s")
      else []

  -- `progress_line_with_speed`
  unfoldable pub progress_line_with_speed : Text → ℕ → ℕ → Option Speed → Text
  progress_line_with_speed msg position total none = progress_line msg position total
  progress_line_with_speed msg position total (some speed) =
      progress_line msg position total
      ++ (codes " · "
          ++ (floats.human_bytes (floats.whole speed) ++ (codes "/s" ++ eta position total speed)))

  -- `PlainBar::state`
  abbrev pub state : Text → Screen
  state msg = record {
    bar = record { msg = msg; total = 0; last_reported = 0; finished = false };
    lines = msg ∷ [];
  }

  -- `PlainBar::transfer`
  unfoldable pub transfer : Text → ℕ → Screen
  transfer msg total = record {
    bar = record { msg = msg; total = total; last_reported = 0; finished = false };
    lines = if ltb 0 total then progress_line msg 0 total ∷ [] else [];
  }

  -- `PlainBar::set_message`
  abbrev pub set_message : Text → Screen → Screen
  set_message msg s = record s { bar = record s.bar { msg = msg } }

  -- `PlainBar::set_position`, with the speed that `report_line` measured.
  unfoldable pub set_position : ℕ → Option Speed → Screen → Screen
  set_position position speed s =
      if reports position s.bar
      then record {
        bar = record s.bar { last_reported = position };
        lines = s.lines ++ progress_line_with_speed s.bar.msg position s.bar.total speed ∷ [];
      }
      else s

  -- `PlainBar::finish_and_clear`
  abbrev pub finish_and_clear : Option Speed → Screen → Screen
  finish_and_clear speed s = set_position s.bar.total speed s
