-- ===== src/Transfer/Target.antt =====
-- `export_target`, crates/core/src/transfer/receive.rs: where a file of a collection is written.
use worddrop.Base.{
  ℕ, ◌≡◌, ◌↔◌, refl, sym, ap, ◌∙◌, Bool, false, ◌||◌, List, [], ◌∷◌, ◌++◌, Text, codes, text_eq,
  is_empty, contains, split, join, Result, ok, err, ok_injective, err-ne-ok, if◌then◌else◌, All,
  Bool-cases, inl, inr, drop, length, drop-append,
}
use worddrop.Base.Split.{join-split}
use worddrop.Transfer.Files.{FilePath}

abbrev pub slash : ℕ
slash = b'/'

abbrev pub backslash : ℕ
backslash = b'\\'

-- The test that rejects a part of a name.
abbrev pub is_unsafe : Text → Bool
is_unsafe part =
    is_empty part
    || text_eq part (codes ".")
    || text_eq part (codes "..")
    || contains backslash part

-- `InvalidCollectionName`
pub data InvalidName : Type 0 where
  invalid_name : Text → InvalidName

-- The loop over the parts of the name; `push` adds one component.
unfoldable pub push_parts : Text → FilePath → List Text → Result InvalidName FilePath
push_parts name target [] = ok target
push_parts name target (part ∷ parts) =
    let rest = push_parts name (target ++ part ∷ []) parts in
    if is_unsafe part then err (invalid_name name) else rest

-- `export_target`
unfoldable pub export_target : FilePath → Text → Result InvalidName FilePath
export_target root name = push_parts name root (split slash name)

abbrev pub IsSafe : Text → Type 0
IsSafe part = is_unsafe part ≡ false

snoc_append : (p : FilePath) (c : Text) (q : FilePath) → (p ++ c ∷ []) ++ q ≡ p ++ c ∷ q
snoc_append [] c q = refl
snoc_append (a ∷ p) c q = ap (◌∷◌ a) (snoc_append p c q)

append_nil : (p : FilePath) → p ++ [] ≡ p
append_nil [] = refl
append_nil (a ∷ p) = ap (◌∷◌ a) (append_nil p)

push_parts_inv :
    (name : Text) (root : FilePath) (parts : List Text) (target : FilePath)
    → push_parts name root parts ≡ ok target
    → (target ≡ root ++ parts) × All IsSafe parts
unfolding push_parts
push_parts_inv name root [] target h = (sym (ok_injective h) ∙ sym (append_nil root), tt)
push_parts_inv name root (part ∷ parts) target h = elim (Bool-cases (is_unsafe part)) [
  | inl q ↦ absurd (err-ne-ok (rw q at h))
  | inr q ↦
      let (there, safe) = push_parts_inv name (root ++ part ∷ []) parts target (rw q at h) in
      (there ∙ snoc_append root part parts, (q, safe))
]

push_parts_ok :
    (name : Text) (root : FilePath) (parts : List Text)
    → All IsSafe parts
    → push_parts name root parts ≡ ok (root ++ parts)
unfolding push_parts
push_parts_ok name root [] h = ap ok (sym (append_nil root))
push_parts_ok name root (part ∷ parts) h =
    rw h.0 (push_parts_ok name (root ++ part ∷ []) parts h.1 ∙ ap ok (snoc_append root part parts))

-- A name is given a target exactly when none of its parts is empty, `.`, `..` or has a backslash;
-- the target is then the root with the parts below it, which joined by `/` are the name.
pub export_target_iff :
    (root target : FilePath) (name : Text)
    → (export_target root name ≡ ok target) ↔ (
        (parts : List Text) × (parts ≡ split slash name)
        × (join slash parts ≡ name)
        × All IsSafe parts
        × (target ≡ root ++ parts))
unfolding export_target
export_target_iff root target name = (
  λ h.
      let (there, safe) = push_parts_inv name root (split slash name) target h in
      (split slash name, refl, join-split slash name, safe, there),
  λ (parts, same, joined, safe, there). rw (there, ← same) (push_parts_ok name root parts safe),
)

-- Two names that are given the same target under one root are the same name.
export_target_injective :
    (root target : FilePath) (a b : Text)
    → export_target root a ≡ ok target
    → export_target root b ≡ ok target
    → a ≡ b
unfolding export_target
export_target_injective root target a b h k =
    let (here, safe) = push_parts_inv a root (split slash a) target h in
    let (there, safe') = push_parts_inv b root (split slash b) target k in
    let parts : split slash a ≡ split slash b =
      sym (drop-append root (split slash a))
      ∙ ap (drop (length root)) (sym here ∙ there)
      ∙ drop-append root (split slash b) in
    sym (join-split slash a) ∙ ap (join slash) parts ∙ join-split slash b
