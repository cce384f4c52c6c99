-- ===== src/Base/Split.antt =====
-- `str::split` and `join` on one separator.
use worddrop.Base.Tests.{◌==◌, ==_iff, Bool-cases}
use worddrop.Base.Texts.{Text, split, onto_head, join, contains}
use Prim.Native.Nat.{ℕ}
use mathlib.Core.Path.{◌≡◌, refl, sym, ap, ap₂, ◌∙◌}
use mathlib.Core.Logic.{◌≢◌, inl, inr}
use mathlib.Core.Bool.{false}
use mathlib.Core.List.{List, [], ◌∷◌, ◌++◌}
use native.Mathlib.Omega.{arith}

-- A text up to a separator is the first part.
pub split-append :
    (sep : ℕ) (w s : Text) → contains sep w ≡ false → split sep (w ++ sep ∷ s) ≡ w ∷ split sep s
split-append sep [] s h = ground arith
split-append sep (c ∷ w) s h = elim (Bool-cases (c == sep)) [
  | inl q ↦ absurd (ground arith)
  | inr q ↦ rw (q, split-append sep w s (rw q at h))
]

-- A text with no separator is the only part.
pub split_plain : (sep : ℕ) (w : Text) → contains sep w ≡ false → split sep w ≡ w ∷ []
split_plain sep [] h = refl
split_plain sep (c ∷ w) h = elim (Bool-cases (c == sep)) [
  | inl q ↦ absurd (ground arith)
  | inr q ↦ rw (q, split_plain sep w (rw q at h))
]

join-onto_head :
    (sep c : ℕ) (ws : List Text) → ws ≢ [] → join sep (onto_head c ws) ≡ c ∷ join sep ws
join-onto_head sep c [] h = absurd (h refl)
join-onto_head sep c (w ∷ []) h = refl
join-onto_head sep c (w ∷ v ∷ ws) h = refl

pub split-ne-nil : (sep : ℕ) (s : Text) → split sep s ≢ []
split-ne-nil sep [] h = cc
split-ne-nil sep (c ∷ s) h = elim (Bool-cases (c == sep)) [
  | inl q ↦ cc (rw q at h)
  | inr q ↦ onto (split sep s) (rw q at h)
]
  where
    onto : (ws : List Text) → onto_head c ws ≢ []
    onto [] e = cc
    onto (w ∷ ws) e = cc

join_nil : (sep : ℕ) (ws : List Text) → ws ≢ [] → join sep ([] ∷ ws) ≡ sep ∷ join sep ws
join_nil sep [] h = absurd (h refl)
join_nil sep (w ∷ ws) h = refl

-- Joining what was split.
pub join-split : (sep : ℕ) (s : Text) → join sep (split sep s) ≡ s
join-split sep [] = refl
join-split sep (c ∷ s) = elim (Bool-cases (c == sep)) [
  | inl q ↦
      let same : c ≡ sep = (==_iff c sep).0 q in
      rw q (join_nil sep (split sep s) (split-ne-nil sep s) ∙ ap₂ ◌∷◌ (sym same) (join-split sep s))
  | inr q ↦
      rw q (join-onto_head sep c (split sep s) (split-ne-nil sep s) ∙ ap (◌∷◌ c) (join-split sep s))
]
