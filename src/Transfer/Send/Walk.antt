-- ===== src/Transfer/Send/Walk.antt =====
-- The walk of crates/core/src/transfer/send.rs on a finite tree of files.
use worddrop.Base.{
  ℕ, zero, suc, ◌+◌, ◌-◌, ◌<◌, ◌≡◌, refl, ap, ◌∙◌, List, [], ◌∷◌, ◌++◌, append_assoc, append_nil,
  some, Text, ok, arith,
}
use mathlib.Core.List.{Perm}
use worddrop.Transfer.Files.{FilePath}
use worddrop.Transfer.Target.{slash}
use worddrop.Transfer.Send.{
  symlink, regular, directory, Entry, FileSystem, Found, Stack, file_name, sort_found, push_entries,
  walk, walk_files, sorted,
}
use worddrop.Transfer.Send.Sorting.{IsSorted, sort_found-IsSorted, sort_found-perm}

-- What can be read below a path: no entry fails, and none is special.
mutual
  pub data Tree : Type 0 where
    link file : Tree
    dir : Entries → Tree

  pub data Entries : Type 0 where
    end : Entries
    entry : Text → Tree → Entries → Entries

abbrev pub names : {F : Type 0} → Entries → List (Entry F)
names end = []
names (entry name t es) = ok (ok name) ∷ names es

-- The regular files, with their names in the collection; links are left out.
unfoldable mutual
  pub files : FilePath → Text → Tree → Found
  files path name link = []
  files path name file = (name, path) ∷ []
  files path name (dir es) = files_below path name es

  pub files_below : FilePath → Text → Entries → Found
  files_below path name end = []
  files_below path name (entry child t es) =
      files_below path name es ++ files (path ++ child ∷ []) (name ++ slash ∷ child) t

-- How many paths there are.
unfoldable mutual
  pub size : Tree → ℕ
  size link = 1
  size file = 1
  size (dir es) = suc (size_below es)

  pub size_below : Entries → ℕ
  size_below end = 0
  size_below (entry child t es) = size_below es + size t

size_pos : (t : Tree) (left : ℕ) → zero ≡ size t + left → ⊥
unfolding size
size_pos link left e = absurd (omega arith)
size_pos file left e = absurd (omega arith)
size_pos (dir es) left e = absurd (omega arith)

module _ {F : Type 0} (fs : FileSystem F) where
  -- The file system has this tree at the path.
  unfoldable mutual
    pub Holds : FilePath → Tree → Type 0
    Holds path link = fs.symlink_metadata path ≡ ok symlink
    Holds path file = fs.symlink_metadata path ≡ ok regular
    Holds path (dir es) =
        (fs.symlink_metadata path ≡ ok directory)
        × (fs.read_dir path ≡ ok (names es))
        × HoldsBelow path es

    pub HoldsBelow : FilePath → Entries → Type 0
    HoldsBelow path end = Unit
    HoldsBelow path (entry child t es) = Holds (path ++ child ∷ []) t × HoldsBelow path es

  abbrev children : FilePath → Text → Entries → Stack → Stack
  children path name end stack = stack
  children path name (entry child t es) stack =
      children path name es ((path ++ child ∷ [], name ++ slash ∷ child) ∷ stack)

  push_entries-names :
      (X : Type 0) (path : FilePath) (name : Text) (es : Entries) (stack : Stack)
      → push_entries X fs path name (names es) stack ≡ ok (children path name es stack)
  push_entries-names X path name end stack = refl
  push_entries-names X path name (entry child t es) stack =
      push_entries-names X path name es ((path ++ child ∷ [], name ++ slash ∷ child) ∷ stack)

  module _ (X : Type 0) where
    walk_end :
        (rounds : ℕ) (found : Found) → 0 < rounds → walk X fs rounds [] found ≡ some (ok found)
    unfolding walk
    walk_end zero found h = absurd (omega arith)
    walk_end (suc rounds) found h = refl

    mutual
      unfolding walk files size Holds

      walk_tree :
          (t : Tree) (path : FilePath) (name : Text) (rounds left : ℕ) (stack : Stack)
          (found : Found)
          → Holds path t
          → rounds ≡ size t + left
          → walk X fs rounds ((path, name) ∷ stack) found
            ≡ walk X fs left stack (found ++ files path name t)
      walk_tree t path name zero left stack found h e = absurd (size_pos t left e)
      walk_tree link path name (suc rounds) left stack found h e =
          rw (h, append_nil found) (ap (λ (n : ℕ). walk X fs n stack found) (omega arith))
      walk_tree file path name (suc rounds) left stack found h e =
          rw h (ap (λ (n : ℕ). walk X fs n stack (found ++ (name, path) ∷ [])) (omega arith))
      walk_tree (dir es) path name (suc rounds) left stack found h e =
          rw (h.0, h.1, push_entries-names X path name es stack)
            (walk-children es path name rounds left stack found h.2 (omega arith))

      walk-children :
          (es : Entries) (path : FilePath) (name : Text) (rounds left : ℕ) (stack : Stack)
          (found : Found)
          → HoldsBelow path es
          → rounds ≡ size_below es + left
          → walk X fs rounds (children path name es stack) found
            ≡ walk X fs left stack (found ++ files_below path name es)
      walk-children end path name rounds left stack found h e =
          rw (append_nil found) (ap (λ (n : ℕ). walk X fs n stack found) (omega arith))
      walk-children (entry child t es) path name rounds left stack found h e =
          walk-children es path name rounds (size t + left)
            ((path ++ child ∷ [], name ++ slash ∷ child) ∷ stack) found h.1 (omega arith)
          ∙ walk_tree t (path ++ child ∷ []) (name ++ slash ∷ child) (size t + left) left stack
              (found ++ files_below path name es) h.0 refl
          ∙ ap (walk X fs left stack) (
              append_assoc found (files_below path name es)
                (files (path ++ child ∷ []) (name ++ slash ∷ child) t))

  -- On a tree of files whose root has a name, with more rounds than the tree has paths, a walk gives
  -- the regular files of the tree and no others, each once, and in the order of their names.
  pub walk_files_lem :
      (X : Type 0) (t : Tree) (path : FilePath) (root : Text) (rounds : ℕ)
      → Holds path t
      → file_name path ≡ some root
      → size t < rounds
      → (found : Found) × (walk_files X fs rounds path ≡ some (ok found))
        × (found ≡ sort_found (files path root t))
        × IsSorted found
        × Perm found (files path root t)
  unfolding walk_files files size Holds sort_found
  walk_files_lem X t path root rounds h named enough = (
    sort_found (files path root t),
    result t h enough,
    refl,
    sort_found-IsSorted (files path root t),
    sort_found-perm (files path root t),
  )
    where
      result :
          (s : Tree)
          → Holds path s
          → size s < rounds
          → walk_files X fs rounds path ≡ some (ok (sort_found (files path root s)))
      result link there more = rw there
      result file there more = rw (there, named)
      result (dir es) there more =
          rw (there.0, named)
            (ap (sorted X fs) (
              walk_tree X (dir es) path root rounds (rounds - size (dir es)) [] [] there
                (omega arith)
              ∙ walk_end X (rounds - size (dir es)) (files path root (dir es)) (omega arith)))
