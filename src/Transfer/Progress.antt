-- ===== src/Transfer/Progress.antt =====
-- What a receive reports, answers and meets: the types of crates/core/src/transfer/receive.rs and
-- receive/error.rs, the answers of the libraries, and the loop over the items of an export.
use worddrop.Base.{
  ℕ, ◌+◌, ◌%◌, ◌^◌, Bool, true, List, [], ◌∷◌, ◌++◌, Option, none, some, Text, Result, ok, err, leb,
  if◌then◌else◌,
}
use worddrop.Transfer.Files.{FilePath, Disk, path_eq, IoError, Faults}
use worddrop.Transfer.Record.{TransferRecord}
use worddrop.Transfer.Target.{InvalidName}

pub data ReceiveProgress : Type 0 where
  connecting : ReceiveProgress
  downloading : ℕ → ℕ → ReceiveProgress
  exporting : Text → ReceiveProgress
  finished : ℕ → ℕ → ReceiveProgress
  error : ReceiveProgress

pub record TransferResult : Type 0 where
  pub bytes : ℕ
  pub files : ℕ
  pub skipped_bytes : ℕ
  pub skipped : List Text

-- `X` stands for the errors of the endpoint and of the blob store.
pub data ReceiveError (F X : Type 0) : Type 0 where
  target_dir target_dir_resolve : F → ReceiveError F X
  local_state connect sizes download load_collection : X → ReceiveError F X
  connect_timeout : ReceiveError F X
  invalid_collection_name : InvalidName → ReceiveError F X
  export : Text → X → ReceiveError F X
  export_stream_ended : Text → ReceiveError F X
  remove_existing : FilePath → IoError F → ReceiveError F X
  record_save : IoError F → ReceiveError F X

pub data Connected (X : Type 0) : Type 0 where
  connection : Connected X
  refused : X → Connected X
  timed_out : Connected X

-- `GetProgressItem`
pub data GetItem (X : Type 0) : Type 0 where
  offset : ℕ → GetItem X
  get_done : GetItem X
  get_error : X → GetItem X

-- `ExportProgressItem`
pub data ExportItem (X : Type 0) : Type 0 where
  size copy_progress : ℕ → ExportItem X
  export_done : ExportItem X
  export_error : X → ExportItem X

pub record Env (Hash F X : Type 0) : Type 0 where
  pub absolute : Result F FilePath
  pub overwrite : Bool
  pub local : Result X (Bool × ℕ)
  pub connected : Connected X
  pub blob_sizes : Result X (List ℕ)
  pub get_items : List (GetItem X)
  pub collection : Result X (List (Text × Hash))
  pub complete_size : Hash → Option ℕ
  pub export_items : Hash → List (ExportItem X)
  pub export_to : Hash → FilePath → Disk → Disk
  pub remove_fault : FilePath → Option F
  pub faults : ℕ → Faults F
  pub time : ℕ → ℕ
  pub pid : ℕ

pub record World (Hash : Type 0) : Type 0 where
  pub disk : Disk
  pub progress : List ReceiveProgress
  pub resume : Option (TransferRecord Hash)
  -- How many saves there were: the next value of the counter.
  pub saves : ℕ

-- `u64` and `usize` addition, which wraps.
abbrev pub add64 : ℕ → ℕ → ℕ
add64 a b = (a + b) % 2 ^ 64

abbrev pub add_all : List ℕ → ℕ
add_all [] = 0
add_all (n ∷ ns) = add64 n (add_all ns)

abbrev pub at_most : ℕ → ℕ → ℕ
at_most bound n = if leb n bound then n else bound

abbrev pub or_zero : Option ℕ → ℕ
or_zero none = 0
or_zero (some n) = n

abbrev pub zero_result : TransferResult
zero_result = record { bytes = 0; files = 0; skipped_bytes = 0; skipped = [] }

-- The loop over the items of an export: the size, and whether it is done.
unfoldable pub drain : {X : Type 0} → List (ExportItem X) → ℕ → Bool → Result X (ℕ × Bool)
drain [] n d = ok (n, d)
drain (size m ∷ items) n d = drain items m d
drain (copy_progress m ∷ items) n d = drain items n d
drain (export_done ∷ items) n d = drain items n true
drain (export_error x ∷ items) n d = err x

abbrev pub Step {ℓ} : (Hash F X : Type 0) → Type ℓ → Type ℓ
Step Hash F X A = World Hash → Result (ReceiveError F X) A × World Hash

abbrev pub report : {Hash : Type 0} → ReceiveProgress → World Hash → World Hash
report p w = record w { progress = w.progress ++ p ∷ [] }
