-- ===== src/Transfer/Send.antt =====
-- Send preparation, crates/core/src/transfer/send.rs: the walk over the input paths. A file system
-- answers for the metadata and the entries of each path; it does not change during a walk. Prepare
-- has the rest, from the duplicate test to the ticket.
pub mod Sorting
pub mod Walk
pub mod Names
pub mod Prepare
use worddrop.Base.{
  ℕ, zero, suc, ◌==◌, Bool, true, false, ◌&&◌, ◌||◌, List, [], ◌∷◌, ◌++◌, Option, none, some, Text,
  codes, text_eq, Result, ok, err, ltb, if◌then◌else◌,
}
use worddrop.Protocol.Bytes.{Bytes}
use worddrop.Transfer.Files.{FilePath, IoError, not_found}
use worddrop.Transfer.Target.{slash}

-- `SendError`. An entry's name that is not UTF-8 is its bytes, behind the path of its directory.
pub data SendError (F X : Type 0) : Type 0 where
  missing_source invalid_root_name unsupported_file_type : FilePath → SendError F X
  read_metadata : FilePath → IoError F → SendError F X
  read_directory : FilePath → F → SendError F X
  invalid_utf8_path_component : FilePath → Bytes → SendError F X
  duplicate_name import_stream_ended : Text → SendError F X
  import : Text → F → SendError F X
  store_collection : X → SendError F X

-- `std::fs::FileType`, as `symlink_metadata` gives it.
pub data FileType : Type 0 where
  symlink regular directory special : FileType

-- The name of an entry: text, or the bytes that are no UTF-8.
abbrev pub Entry : Type 0 → Type 0
Entry F = Result F (Result Bytes Text)

pub record FileSystem (F : Type 0) : Type 0 where
  pub symlink_metadata : FilePath → Result (IoError F) FileType
  pub read_dir : FilePath → Result F (List (Entry F))

-- Names of the collection with their files; and the stack of the walk, its top first.
abbrev pub Found : Type 0
Found = List (Text × FilePath)

abbrev pub Stack : Type 0
Stack = List (FilePath × Text)

-- `Path::file_name`, of a path of text components.
abbrev pub last_component : Text → FilePath → Text
last_component c [] = c
last_component c (d ∷ p) = last_component d p

abbrev pub file_name : FilePath → Option Text
file_name [] = none
file_name (c ∷ p) =
    let name = last_component c p in
    if text_eq name (codes ".") || text_eq name (codes "..") then none else some name

-- `String::cmp(a, b) != Greater`: the order of the bytes of UTF-8 is that of the code points.
abbrev pub text_le : Text → Text → Bool
text_le [] t = true
text_le (a ∷ s) [] = false
text_le (a ∷ s) (b ∷ t) = ltb a b || (a == b && text_le s t)

-- `sort_by` by the name, which is stable.
abbrev pub insert_found : Text × FilePath → Found → Found
insert_found f [] = f ∷ []
insert_found f (g ∷ fs) = if text_le f.0 g.0 then f ∷ g ∷ fs else g ∷ insert_found f fs

unfoldable pub sort_found : Found → Found
sort_found [] = []
sort_found (f ∷ fs) = insert_found f (sort_found fs)

abbrev pub Walk : (F X : Type 0) → Type 0
Walk F X = Option (Result (SendError F X) Found)

module _ {F : Type 0} (X : Type 0) (fs : FileSystem F) where
  -- The loop over the entries of a directory.
  abbrev pub push_entries : FilePath → Text → List (Entry F) → Stack → Result (SendError F X) Stack
  push_entries current name [] stack = ok stack
  push_entries current name (err f ∷ es) stack = err (read_directory current f)
  push_entries current name (ok (err raw) ∷ es) stack =
      err (invalid_utf8_path_component current raw)
  push_entries current name (ok (ok child) ∷ es) stack =
      push_entries current name es ((current ++ child ∷ [], name ++ slash ∷ child) ∷ stack)

  abbrev pub go_on : (Stack → Found → Walk F X) → Found → Result (SendError F X) Stack → Walk F X
  go_on next found (err e) = some (err e)
  go_on next found (ok stack) = next stack found

  abbrev pub visit_directory :
      (Stack → Found → Walk F X)
      → FilePath
      → Text
      → Stack
      → Found
      → Result F (List (Entry F))
      → Walk F X
  visit_directory next current name stack found (err f) = some (err (read_directory current f))
  visit_directory next current name stack found (ok es) =
      go_on next found (push_entries current name es stack)

  abbrev pub visit :
      (Stack → Found → Walk F X)
      → FilePath
      → Text
      → Stack
      → Found
      → Result (IoError F) FileType
      → Walk F X
  visit next current name stack found (err e) = some (err (read_metadata current e))
  visit next current name stack found (ok symlink) = next stack found
  visit next current name stack found (ok regular) = next stack (found ++ (name, current) ∷ [])
  visit next current name stack found (ok directory) =
      visit_directory next current name stack found (fs.read_dir current)
  visit next current name stack found (ok special) = some (err (unsupported_file_type current))

  -- The loop over the stack; `none` when the rounds run out.
  unfoldable pub walk : ℕ → Stack → Found → Walk F X
  walk zero stack found = none
  walk (suc rounds) [] found = some (ok found)
  walk (suc rounds) ((current, name) ∷ stack) found =
      visit (walk rounds) current name stack found (fs.symlink_metadata current)

  abbrev pub sorted : Walk F X → Walk F X
  sorted none = none
  sorted (some (err e)) = some (err e)
  sorted (some (ok found)) = some (ok (sort_found found))

  abbrev pub with_name : ℕ → FilePath → FileType → Option Text → Walk F X
  with_name rounds path type none = some (err (invalid_root_name path))
  with_name rounds path regular (some root) = sorted (some (ok ((root, path) ∷ [])))
  with_name rounds path directory (some root) = sorted (walk rounds ((path, root) ∷ []) [])
  with_name rounds path special (some root) = some (err (unsupported_file_type path))
  with_name rounds path symlink (some root) = some (ok [])

  abbrev pub at_input : ℕ → FilePath → Result (IoError F) FileType → Walk F X
  at_input rounds path (err not_found) = some (err (missing_source path))
  at_input rounds path (err e) = some (err (read_metadata path e))
  at_input rounds path (ok symlink) = some (ok [])
  at_input rounds path (ok type) = with_name rounds path type (file_name path)

  -- `walk_files`
  unfoldable pub walk_files : ℕ → FilePath → Walk F X
  walk_files rounds path = at_input rounds path (fs.symlink_metadata path)
