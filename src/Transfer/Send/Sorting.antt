-- ===== src/Transfer/Send/Sorting.antt =====
-- `sort_by` on what a walk found.
use worddrop.Base.{◌≡◌, refl, true, false, [], ◌∷◌, Text, Bool-cases, inl, inr, All, arith}
use mathlib.Core.List.{Perm}
use mathlib.Core.List.Perm
use worddrop.Transfer.Files.{FilePath}
use worddrop.Transfer.Send.{Found, text_le, insert_found, sort_found}

-- Each name is at most the next.
abbrev pub IsSorted : Found → Type 0
IsSorted [] = Unit
IsSorted (f ∷ []) = Unit
IsSorted (f ∷ g ∷ fs) = (text_le f.0 g.0 ≡ true) × IsSorted (g ∷ fs)

pub text_le_total : (s t : Text) → text_le s t ≡ false → text_le t s ≡ true
text_le_total [] t h = ground arith
text_le_total (a ∷ s) [] h = refl
text_le_total (a ∷ s) (b ∷ t) h = ground (arith, text_le_total s t)

insert_found-IsSorted :
    (f : Text × FilePath) (fs : Found) → IsSorted fs → IsSorted (insert_found f fs)
insert_found-IsSorted f [] s = tt
insert_found-IsSorted f (g ∷ []) s = elim (Bool-cases (text_le f.0 g.0)) [
  | inl q ↦ rw q (q, tt)
  | inr q ↦ rw q (text_le_total f.0 g.0 q, tt)
]
insert_found-IsSorted f (g ∷ h ∷ fs) s = elim (Bool-cases (text_le f.0 g.0)) [
  | inl q ↦ rw q (q, s)
  | inr q ↦
      let below = insert_found-IsSorted f (h ∷ fs) s.1 in
      rw q (elim (Bool-cases (text_le f.0 h.0)) [
        | inl r ↦ rw r (text_le_total f.0 g.0 q, rw r at below)
        | inr r ↦ rw r (s.0, rw r at below)
      ])
]

pub sort_found-IsSorted : (fs : Found) → IsSorted (sort_found fs)
unfolding sort_found
sort_found-IsSorted [] = tt
sort_found-IsSorted (f ∷ fs) = insert_found-IsSorted f (sort_found fs) (sort_found-IsSorted fs)

insert_found-perm : (f : Text × FilePath) (fs : Found) → Perm (insert_found f fs) (f ∷ fs)
insert_found-perm f [] = Perm.rfl
insert_found-perm f (g ∷ fs) = elim (Bool-cases (text_le f.0 g.0)) [
  | inl q ↦ rw q Perm.rfl
  | inr q ↦ rw q (Perm.trans (Perm.cons g (insert_found-perm f fs)) (Perm.swap f g fs))
]

pub sort_found-perm : (fs : Found) → Perm (sort_found fs) fs
unfolding sort_found
sort_found-perm [] = Perm.rfl
sort_found-perm (f ∷ fs) =
    Perm.trans (insert_found-perm f (sort_found fs)) (Perm.cons f (sort_found-perm fs))

module _ {ℓ} (P : Text × FilePath → Type ℓ) where
  pub insert_found-All :
      (f : Text × FilePath) (fs : Found) → P f → All P fs → All P (insert_found f fs)
  insert_found-All f [] p ps = (p, tt)
  insert_found-All f (g ∷ fs) p ps = elim (Bool-cases (text_le f.0 g.0)) [
    | inl q ↦ rw q (p, ps)
    | inr q ↦ rw q (ps.0, insert_found-All f fs p ps.1)
  ]

  pub sort_found-All : (fs : Found) → All P fs → All P (sort_found fs)
  unfolding sort_found
  sort_found-All [] ps = tt
  sort_found-All (f ∷ fs) ps = insert_found-All f (sort_found fs) ps.0 (sort_found-All fs ps.1)
