-- ===== src/Base/Table.antt =====
-- `HashMap` as an association list with at most one entry for a key. The program reads nothing
-- from the order of the entries.
use Prim.Native.Nat.{ℕ}
use mathlib.Core.Path.{◌≡◌, refl, ap, subst, ◌∙◌}
use mathlib.Core.Logic.{◌↔◌, inl, inr}
use mathlib.Core.Bool.{Bool, true, false}
use mathlib.Core.Option.{Option, none, some}
use mathlib.Core.List.{List, [], ◌∷◌}
use native.Mathlib.Omega.{arith}
use worddrop.Base.Tests.{◌==◌, ==_iff, if◌then◌else◌, Bool-cases}

pub record Eq {ℓ} (A : Type ℓ) : Type ℓ where
  pub beq : (j k : A) → Bool
  pub beq_iff : (j k : A) → (beq j k ≡ true) ↔ (j ≡ k)

instance abbrev pub nat_eq : Eq ℕ
nat_eq = record { beq = ◌==◌; beq_iff = ==_iff }

abbrev pub Table {ℓ κ} : Type ℓ → Type κ → Type (ℓ ⊔ κ)
Table K V = List (K × V)

-- `Option::filter`
abbrev pub kept {ℓ} : {V : Type ℓ} → (V → Bool) → Option V → Option V
kept p none = none
kept p (some v) = if p v then some v else none

beq_sym {ℓ} : {K : Type ℓ} ⦃e : Eq K⦄ (j k : K) → e.beq j k ≡ false → e.beq k j ≡ false
beq_sym ⦃e⦄ j k h = ground (arith, e.beq_iff j k, e.beq_iff k j)

module _ {ℓ κ} {K : Type ℓ} {V : Type κ} ⦃e : Eq K⦄ where
  unfoldable pub lookup : K → Table K V → Option V
  lookup k [] = none
  lookup k ((j, v) ∷ t) = if e.beq j k then some v else lookup k t

  -- `HashMap::insert`
  unfoldable pub insert : K → V → Table K V → Table K V
  insert k v [] = (k, v) ∷ []
  insert k v ((j, w) ∷ t) = if e.beq j k then (k, v) ∷ t else (j, w) ∷ insert k v t

  pub lookup-insert :
      (k j : K) (v : V) (t : Table K V)
      → lookup j (insert k v t) ≡ (if e.beq k j then some v else lookup j t)
  unfolding lookup insert
  lookup-insert k j v [] = refl
  lookup-insert k j v ((i, w) ∷ t) =
      ground (arith, e.beq_iff k j, e.beq_iff i k, e.beq_iff i j, lookup-insert k j v t)

  pub lookup-insert_self : (k : K) (v : V) (t : Table K V) → lookup k (insert k v t) ≡ some v
  lookup-insert_self k v t = rw (lookup-insert k k v t, (e.beq_iff k k).1 refl)

  -- `HashMap::retain` by a test on the value.
  unfoldable pub retain : (V → Bool) → Table K V → Table K V
  retain p [] = []
  retain p ((k, v) ∷ t) = let rest = retain p t in if p v then (k, v) ∷ rest else rest

  -- `HashMap::remove`
  unfoldable pub remove : K → Table K V → Table K V
  remove k [] = []
  remove k ((j, v) ∷ t) = let rest = remove k t in if e.beq k j then rest else (j, v) ∷ rest

  pub lookup-remove :
      (k j : K) (t : Table K V) → lookup j (remove k t) ≡ (if e.beq k j then none else lookup j t)
  unfolding lookup remove
  lookup-remove k j [] = ground arith
  lookup-remove k j ((i, w) ∷ t) =
      ground (arith, e.beq_iff k j, e.beq_iff k i, e.beq_iff i j, lookup-remove k j t)

  -- No entry for the key.
  unfoldable pub Absent : K → Table K V → Type 0
  Absent k [] = Unit
  Absent k ((j, v) ∷ t) = (e.beq j k ≡ false) × Absent k t

  -- At most one entry for each key.
  unfoldable pub IsMap : Table K V → Type 0
  IsMap [] = Unit
  IsMap ((k, v) ∷ t) = Absent k t × IsMap t

  Absent-insert :
      (j k : K) (v : V) (t : Table K V) → e.beq k j ≡ false → Absent j t → Absent j (insert k v t)
  unfolding Absent insert
  Absent-insert j k v [] h a = (h, tt)
  Absent-insert j k v ((i, w) ∷ t) h a = elim (Bool-cases (e.beq i k)) [
    | inl q ↦ rw q (h, a.1)
    | inr q ↦ rw q (a.0, Absent-insert j k v t h a.1)
  ]

  pub IsMap-insert : (k : K) (v : V) (t : Table K V) → IsMap t → IsMap (insert k v t)
  unfolding IsMap insert Absent
  IsMap-insert k v [] h = (tt, tt)
  IsMap-insert k v ((j, w) ∷ t) h = elim (Bool-cases (e.beq j k)) [
    | inl q ↦ rw q (subst (λ x. Absent x t) ((e.beq_iff j k).0 q) h.0, h.1)
    | inr q ↦ rw q (Absent-insert j k v t (beq_sym j k q) h.0, IsMap-insert k v t h.1)
  ]

  Absent-retain : (p : V → Bool) (k : K) (t : Table K V) → Absent k t → Absent k (retain p t)
  unfolding Absent retain
  Absent-retain p k [] a = a
  Absent-retain p k ((j, v) ∷ t) a = elim (Bool-cases (p v)) [
    | inl q ↦ rw q (a.0, Absent-retain p k t a.1)
    | inr q ↦ rw q (Absent-retain p k t a.1)
  ]

  pub IsMap-retain : (p : V → Bool) (t : Table K V) → IsMap t → IsMap (retain p t)
  unfolding IsMap retain
  IsMap-retain p [] h = h
  IsMap-retain p ((k, v) ∷ t) h = elim (Bool-cases (p v)) [
    | inl q ↦ rw q (Absent-retain p k t h.0, IsMap-retain p t h.1)
    | inr q ↦ rw q (IsMap-retain p t h.1)
  ]

  lookup-Absent : (k : K) (t : Table K V) → Absent k t → lookup k t ≡ none
  unfolding lookup Absent
  lookup-Absent k [] a = refl
  lookup-Absent k ((j, v) ∷ t) a = rw a.0 (lookup-Absent k t a.1)

  pub lookup-retain :
      (p : V → Bool) (k : K) (t : Table K V) → IsMap t → lookup k (retain p t) ≡ kept p (lookup k t)
  unfolding lookup retain IsMap
  lookup-retain p k [] h = refl
  lookup-retain p k ((j, v) ∷ t) h = elim (Bool-cases (e.beq j k)) [
    | inl q ↦ elim (Bool-cases (p v)) [
      | inl r ↦ rw (r, q) (rw r)
      | inr r ↦
          rw (r, q)
            (lookup-retain p k t h.1
              ∙ ap (kept p) (lookup-Absent k t (subst (λ x. Absent x t) ((e.beq_iff j k).0 q) h.0))
              ∙ rw r)
    ]
    | inr q ↦ elim (Bool-cases (p v)) [
      | inl r ↦ rw (r, q) (lookup-retain p k t h.1)
      | inr r ↦ rw (r, q) (lookup-retain p k t h.1)
    ]
  ]
