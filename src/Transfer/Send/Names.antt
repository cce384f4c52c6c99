-- ===== src/Transfer/Send/Names.antt =====
-- The names that a walk gives to files, and the targets that a receiver gives to the names.
use worddrop.Base.{
  ℕ, ◌<◌, ◌≡◌, refl, sym, ap, ◌∙◌, false, List, [], ◌∷◌, ◌++◌, append_assoc, Text, some, contains,
  split, join, ok, All, All-append,
}
use worddrop.Base.Split.{split-append, split_plain}
use worddrop.Transfer.Files.{FilePath}
use worddrop.Transfer.Target.{slash, IsSafe, export_target, export_target_iff}
use worddrop.Transfer.Send.{FileSystem, Found, file_name, walk_files}
use worddrop.Transfer.Send.Sorting.{sort_found-All}
use worddrop.Transfer.Send.Walk.{
  Tree, link, file, dir, Entries, end, entry, files, files_below, size, Holds, walk_files_lem,
}

-- A component that every receiver accepts.
abbrev pub IsPlain : Text → Type 0
IsPlain c = IsSafe c × (contains slash c ≡ false)

unfoldable mutual
  pub IsPlainTree : Tree → Type 0
  IsPlainTree link = Unit
  IsPlainTree file = Unit
  IsPlainTree (dir es) = ArePlain es

  ArePlain : Entries → Type 0
  ArePlain end = Unit
  ArePlain (entry child t es) = IsPlain child × IsPlainTree t × ArePlain es

split-join :
    (c : Text) (cs : List Text) → All IsPlain (c ∷ cs) → split slash (join slash (c ∷ cs)) ≡ c ∷ cs
split-join c [] h = split_plain slash c h.0.1
split-join c (d ∷ cs) h =
    split-append slash c (join slash (d ∷ cs)) h.0.1 ∙ ap (◌∷◌ c) (split-join d cs h.1)

join_snoc :
    (c : Text) (cs : List Text) (d : Text)
    → join slash (c ∷ cs ++ d ∷ []) ≡ join slash (c ∷ cs) ++ slash ∷ d
join_snoc c [] d = refl
join_snoc c (b ∷ cs) d =
    ap (λ (s : Text). c ++ slash ∷ s) (join_snoc b cs d)
    ∙ sym (append_assoc c (slash ∷ join slash (b ∷ cs)) (slash ∷ d))

all-IsSafe : (cs : List Text) → All IsPlain cs → All IsSafe cs
all-IsSafe [] h = tt
all-IsSafe (c ∷ cs) h = (h.0.0, all-IsSafe cs h.1)

-- Below `to`, the receiver puts the file where it stands below `from`.
abbrev pub IsMirrored : FilePath → FilePath → Text × FilePath → Type 0
IsMirrored from to (name, path) =
    (parts : FilePath) × (path ≡ from ++ parts) × (export_target to name ≡ ok (to ++ parts))

module _ (from to : FilePath) where
  mirrored :
      (c : Text) (cs : FilePath)
      → All IsPlain (c ∷ cs)
      → IsMirrored from to (join slash (c ∷ cs), from ++ c ∷ cs)
  mirrored c cs h = (
    c ∷ cs,
    refl,
    (export_target_iff to (to ++ c ∷ cs) (join slash (c ∷ cs))).1
        (c ∷ cs, sym (split-join c cs h), refl, all-IsSafe (c ∷ cs) h, refl),
  )

  mutual
    unfolding files IsPlainTree

    files-IsMirrored :
        (t : Tree) (c : Text) (cs : FilePath)
        → All IsPlain (c ∷ cs)
        → IsPlainTree t
        → All (IsMirrored from to) (files (from ++ c ∷ cs) (join slash (c ∷ cs)) t)
    files-IsMirrored link c cs h p = tt
    files-IsMirrored file c cs h p = (mirrored c cs h, tt)
    files-IsMirrored (dir es) c cs h p = files_below-IsMirrored es c cs h p

    files_below-IsMirrored :
        (es : Entries) (c : Text) (cs : FilePath)
        → All IsPlain (c ∷ cs)
        → ArePlain es
        → All (IsMirrored from to) (files_below (from ++ c ∷ cs) (join slash (c ∷ cs)) es)
    files_below-IsMirrored end c cs h p = tt
    files_below-IsMirrored (entry child t es) c cs h p =
        All-append (IsMirrored from to) (files_below (from ++ c ∷ cs) (join slash (c ∷ cs)) es)
          (files ((from ++ c ∷ cs) ++ child ∷ []) (join slash (c ∷ cs) ++ slash ∷ child) t)
          (files_below-IsMirrored es c cs h p.2)
          (rw (append_assoc from (c ∷ cs) (child ∷ []), ← join_snoc c cs child)
            (files-IsMirrored t c (cs ++ child ∷ [])
              (h.0, All-append IsPlain cs (child ∷ []) h.1 (p.0, tt)) p.1))

-- If no component of a tree is empty, `.`, `..` or has a `/` or a backslash, then every file that a
-- walk of it finds gets a target from every receiver, and the receiver's files lie below its target
-- directory as the sender's lie below the directory of the input.
pub walk_files-IsMirrored :
    {F : Type 0} (fs : FileSystem F) (X : Type 0) (t : Tree) (from to : FilePath) (root : Text)
    (rounds : ℕ)
    → Holds fs (from ++ root ∷ []) t
    → file_name (from ++ root ∷ []) ≡ some root
    → size t < rounds
    → IsPlain root
    → IsPlainTree t
    → (found : Found) × (walk_files X fs rounds (from ++ root ∷ []) ≡ some (ok found))
      × All (IsMirrored from to) found
walk_files-IsMirrored fs X t from to root rounds h named enough plain p =
    let (found, walked, same, ordered, perm) =
      walk_files_lem fs X t (from ++ root ∷ []) root rounds h named enough in
    (
      found,
      walked,
      rw same (
          sort_found-All (IsMirrored from to) (files (from ++ root ∷ []) root t)
            (files-IsMirrored from to t root [] (plain, tt) p)),
    )
