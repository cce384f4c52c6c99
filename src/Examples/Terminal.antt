-- ===== src/Examples/Terminal.antt =====
-- A bar over 1000 bytes.
use worddrop.Base.{ℕ, ◌≤◌, ltb, [], ◌∷◌, none, codes, length, arith}
use worddrop.Terminal.{Floats, transfer, finish_and_clear}
use worddrop.Terminal.Steps.{set_all, transfer_bounded}

abbrev floats : Floats ℕ
floats = record {
  human_bytes = λ n. codes "n";
  whole = λ s. s;
  is_positive = λ s. ltb 0 s;
  seconds = λ n s. n;
}

transfer_bounded_example :
    length
      (finish_and_clear floats none (
        set_all floats
          ((49, none) ∷ (50, none) ∷ (30, none) ∷ (1000, none) ∷ [])
          (transfer floats (codes "m") 1000))).lines
    ≤ 22
transfer_bounded_example =
    transfer_bounded floats 1000 (omega arith) (omega arith) (codes "m")
      ((49, none) ∷ (50, none) ∷ (30, none) ∷ (1000, none) ∷ []) none
      (omega arith, (omega arith, (omega arith, (omega arith, tt))))
