-- ===== src/Examples/Sends.antt =====
-- Sends prepared from a small tree: docs/b, docs/a/x, and a link docs/l.
use worddrop.Base.{
  ℕ, suc, ◌≡◌, refl, List, [], ◌∷◌, some, codes, Result, ok, err, if◌then◌else◌, All, arith,
}
use mathlib.Core.List.{Perm}
use worddrop.Transfer.Files.{FilePath, same_path, IoError, not_found}
use worddrop.Transfer.Send.{
  FileSystem, FileType, symlink, regular, directory, Entry, Found, walk, walk_files, sort_found,
}
use worddrop.Transfer.Send.Sorting.{IsSorted}
use worddrop.Transfer.Send.Walk.{
  Tree, link, file, dir, end, entry, files, size, Holds, walk_files_lem,
}
use worddrop.Transfer.Send.Names.{IsPlainTree, IsMirrored, walk_files-IsMirrored}
use worddrop.Transfer.Send.Prepare.{
  ProgressEvent, file_found, file_imported, PreparedTransfer, AddItem, add_done, copy_done,
  Importer, check_names, import_items, import_files, import_all, discover, prepare_send,
}
use worddrop.Transfer.Send.Prepare
use worddrop.Transfer.Send.Prepare.Complete.{Accounts, prepare_send_lem}

abbrev home : FilePath
home = codes "home" ∷ []

abbrev docs : FilePath
docs = codes "home" ∷ codes "docs" ∷ []

abbrev below : FilePath → FilePath
below [] = docs
below (c ∷ p) = codes "home" ∷ codes "docs" ∷ c ∷ p

abbrev in_a : FilePath → FilePath
in_a p = below (codes "a" ∷ p)

abbrev kind : FilePath → Result (IoError ℕ) FileType
kind p =
    if same_path p docs
    then ok directory
    else if same_path p (below (codes "b" ∷ []))
    then ok regular
    else if same_path p (below (codes "a" ∷ []))
    then ok directory
    else if same_path p (in_a (codes "x" ∷ []))
    then ok regular
    else if same_path p (below (codes "l" ∷ []))
    then ok symlink
    else err not_found

abbrev listing : FilePath → Result ℕ (List (Entry ℕ))
listing p =
    if same_path p docs
    then ok (ok (ok (codes "b")) ∷ ok (ok (codes "a")) ∷ ok (ok (codes "l")) ∷ [])
    else if same_path p (below (codes "a" ∷ []))
    then ok (ok (ok (codes "x")) ∷ [])
    else err 2

abbrev disk : FileSystem ℕ
disk = record { symlink_metadata = kind; read_dir = listing }

abbrev tree : Tree
tree = dir (
    entry (codes "b") file
      (entry (codes "a") (dir (entry (codes "x") file end)) (entry (codes "l") link end)))

tree-Holds : Holds disk docs tree
unfolding Holds
tree-Holds = (refl, refl, (refl, ((refl, refl, (refl, tt)), (refl, tt))))

size-tree : size tree ≡ 5
unfolding size
size-tree = refl

walk_files_lem_example :
    (found : Found) × (walk_files ℕ disk 6 docs ≡ some (ok found))
    × (found ≡ sort_found (files docs (codes "docs") tree))
    × IsSorted found
    × Perm found (files docs (codes "docs") tree)
walk_files_lem_example =
    walk_files_lem disk ℕ tree docs (codes "docs") 6 tree-Holds refl (omega (arith, size-tree))

tree-IsPlainTree : IsPlainTree tree
unfolding IsPlainTree
tree-IsPlainTree =
    ((refl, refl), tt, ((refl, refl), ((refl, refl), tt, tt), ((refl, refl), tt, tt)))

walk_files-IsMirrored_example :
    (found : Found) × (walk_files ℕ disk 6 docs ≡ some (ok found))
    × All (IsMirrored home (codes "inbox" ∷ [])) found
walk_files-IsMirrored_example =
    walk_files-IsMirrored disk ℕ tree home (codes "inbox" ∷ []) (codes "docs") 6 tree-Holds refl
      (omega (arith, size-tree)) (refl, refl) tree-IsPlainTree

-- Every file has three bytes, and its hash is how many components its path has.
abbrev depth : FilePath → ℕ
depth [] = 0
depth (c ∷ p) = suc (depth p)

abbrev blobs : Importer ℕ ℕ ℕ ℕ
blobs = record {
  add_path = λ p. Prepare.size 3 ∷ copy_done ∷ add_done (depth p) ∷ [];
  store = λ c. ok 77;
  endpoint_addr = 5;
}

abbrev ready : PreparedTransfer ℕ ℕ
ready = record {
  ticket = record { addr = 5; hash = 77 };
  collection_hash = 77;
  files =
      record { path = in_a (codes "x" ∷ []); name = codes "docs/a/x"; size = 3; hash = 4 }
      ∷ record { path = below (codes "b" ∷ []); name = codes "docs/b"; size = 3; hash = 3 }
      ∷ [];
  total_bytes = 6;
}

abbrev reported : List ProgressEvent
reported =
    file_found (codes "docs/a/x") 3
    ∷ file_imported (codes "docs/a/x")
    ∷ file_found (codes "docs/b") 3
    ∷ file_imported (codes "docs/b")
    ∷ []

prepare_send-docs : prepare_send blobs disk 6 (docs ∷ []) [] ≡ some (ok ready, reported)
unfolding prepare_send discover walk_files walk sort_found check_names import_all import_files
    import_items
prepare_send-docs = refl

prepare_send_lem_example :
    (found : Found) × (discover blobs disk 6 (docs ∷ []) [] ≡ some (ok found))
    × Accounts blobs found ready reported
prepare_send_lem_example =
    prepare_send_lem blobs disk 6 (docs ∷ []) ready reported prepare_send-docs
