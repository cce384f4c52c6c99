-- ===== src/Transfer/Send/Prepare.antt =====
-- `TransferEngine::prepare_send`, crates/core/src/transfer/send.rs. What the blob store answers is
-- in `Importer`; the events that were reported are a list.
pub mod Inventory
pub mod Complete
use worddrop.Base.{
  ℕ, ◌+◌, Bool, List, [], ◌∷◌, ◌++◌, map, any, Option, none, some, Text, text_eq, Result, ok, err,
  if◌then◌else◌,
}
use worddrop.Transfer.Files.{FilePath}
use worddrop.Transfer.Progress.{add64}
use worddrop.Transfer.Send.{
  SendError, duplicate_name, import, import_stream_ended, store_collection, FileSystem, Found, Walk,
  walk_files, sort_found,
}

pub data ProgressEvent : Type 0 where
  file_found : Text → ℕ → ProgressEvent
  file_imported : Text → ProgressEvent

pub record PreparedFile (Hash : Type 0) : Type 0 where
  pub path : FilePath
  pub name : Text
  pub size : ℕ
  pub hash : Hash

-- `BlobTicket`, of the format `HashSeq`.
pub record Ticket (Hash Addr : Type 0) : Type 0 where
  pub addr : Addr
  pub hash : Hash

pub record PreparedTransfer (Hash Addr : Type 0) : Type 0 where
  pub ticket : Ticket Hash Addr
  pub collection_hash : Hash
  pub files : List (PreparedFile Hash)
  pub total_bytes : ℕ

-- `AddProgressItem`
pub data AddItem (Hash F : Type 0) : Type 0 where
  size copy_progress outboard_progress : ℕ → AddItem Hash F
  copy_done : AddItem Hash F
  add_done : Hash → AddItem Hash F
  add_error : F → AddItem Hash F

pub record Importer (Hash F X Addr : Type 0) : Type 0 where
  pub add_path : FilePath → List (AddItem Hash F)
  pub store : List (Text × Hash) → Result X Hash
  pub endpoint_addr : Addr

abbrev pub Step {ℓ} : (F X : Type 0) → Type ℓ → Type ℓ
Step F X A = List ProgressEvent → Result (SendError F X) A × List ProgressEvent

module _ {F X : Type 0} where
  abbrev pub then_run {ℓ κ} :
      {A : Type ℓ} {B : Type κ}
      → (A → Step F X B)
      → Result (SendError F X) A × List ProgressEvent
      → Result (SendError F X) B × List ProgressEvent
  then_run f (ok a, events) = f a events
  then_run f (err e, events) = (err e, events)

  -- The loop with `HashSet::insert`.
  unfoldable pub check_names : List Text → Found → Result (SendError F X) (Unit {0})
  check_names seen [] = ok tt
  check_names seen ((name, path) ∷ fs) =
      let rest = check_names (name ∷ seen) fs in
      if any (text_eq name) seen then err (duplicate_name name) else rest

  -- The loop over the items of one import.
  unfoldable pub import_items :
      {Hash : Type 0} → Text → ℕ → List (AddItem Hash F) → Step F X (ℕ × Hash)
  import_items name n [] events = (err (import_stream_ended name), events)
  import_items name n (size m ∷ items) events =
      import_items name m items (events ++ file_found name m ∷ [])
  import_items name n (add_done h ∷ items) events = (ok (n, h), events ++ file_imported name ∷ [])
  import_items name n (add_error e ∷ items) events = (err (import name e), events)
  import_items name n (copy_progress m ∷ items) events = import_items name n items events
  import_items name n (outboard_progress m ∷ items) events = import_items name n items events
  import_items name n (copy_done ∷ items) events = import_items name n items events

module _ {Hash F X Addr : Type 0} (importer : Importer Hash F X Addr) where
  -- The loop over the files, with what is prepared and the total so far.
  unfoldable pub import_files :
      Found → List (PreparedFile Hash) → ℕ → Step F X (List (PreparedFile Hash) × ℕ)
  import_files [] files total events = (ok (files, total), events)
  import_files ((name, path) ∷ fs) files total events =
      then_run
        (λ (n, h).
          import_files fs (files ++ record { path = path; name = name; size = n; hash = h } ∷ [])
            (add64 total n))
        (import_items name 0 (importer.add_path path) events)

  abbrev pub prepared :
      List (PreparedFile Hash) → ℕ → Result X Hash → Step F X (PreparedTransfer Hash Addr)
  prepared files total (err x) events = (err (store_collection x), events)
  prepared files total (ok h) events = (
    ok (record {
      ticket = record { addr = importer.endpoint_addr; hash = h };
      collection_hash = h;
      files = files;
      total_bytes = total;
    }),
    events,
  )

  unfoldable pub import_all : Found → Step F X (PreparedTransfer Hash Addr)
  import_all found events =
      then_run
        (λ (files, total).
          prepared files total (importer.store (map (λ f. (f.name, f.hash)) files)))
        (import_files (sort_found found) [] 0 events)

  abbrev pub if_distinct :
      Found → Result (SendError F X) (Unit {0}) → Step F X (PreparedTransfer Hash Addr)
  if_distinct found (err e) events = (err e, events)
  if_distinct found (ok u) events = import_all found events

  abbrev pub Prepared : Type 0
  Prepared = Option (Result (SendError F X) (PreparedTransfer Hash Addr) × List ProgressEvent)

  abbrev pub with_found : List ProgressEvent → Walk F X → Prepared
  with_found events none = none
  with_found events (some (err e)) = some (err e, events)
  with_found events (some (ok found)) = some (if_distinct found (check_names [] found) events)

  module _ (fs : FileSystem F) where
    abbrev pub extend : (Found → Walk F X) → Found → Walk F X → Walk F X
    extend next found none = none
    extend next found (some (err e)) = some (err e)
    extend next found (some (ok more)) = next (found ++ more)

    -- The loop over the inputs.
    unfoldable pub discover : ℕ → List FilePath → Found → Walk F X
    discover rounds [] found = some (ok found)
    discover rounds (p ∷ ps) found = extend (discover rounds ps) found (walk_files X fs rounds p)

    -- `prepare_send`; `none` when the rounds of a walk run out.
    unfoldable pub prepare_send : ℕ → List FilePath → List ProgressEvent → Prepared
    prepare_send rounds paths events = with_found events (discover rounds paths [])
