-- ===== src/Transfer/Record.antt =====
-- `TransferRecord` and `RecordStore`, crates/core/src/transfer/record.rs. The hashes of the blob
-- library and the JSON library are parameters.
pub mod Atomic
use worddrop.Base.{
  ℕ, ◌≡◌, ◌+◌, Bool, true, false, ◌&&◌, all, length, List, [], ◌∷◌, ◌++◌, Option, none, some, Text,
  codes, text_eq, Result, ok, err, map_err, ◌||◌, leb, if◌then◌else◌,
}
use worddrop.Base.Decimal.{to_string}
use worddrop.Base.Table.{Eq, lookup}
use worddrop.Protocol.Bytes.{Bytes}
use worddrop.Protocol.Wire.{Json}
use worddrop.Transfer.Files.{
  FilePath, Disk, path_eq, IoError, not_found, already_exists, invalid_data, Faults, Io, fails,
  continue, nothing, create_new, remove_file, write_all, rename_file,
}

-- `TRANSFERS_DIR`
abbrev pub transfers_dir : Text
transfers_dir = codes "transfers"

pub data TransferStatus : Type 0 where
  in_progress done : TransferStatus

abbrev pub is_hex : ℕ → Bool
is_hex c = (leb b'0' c && leb c b'9') || (leb b'a' c && leb c b'f')

-- `iroh_blobs::Hash`: equality, and its form of 64 hexadecimal digits, which tells hashes apart.
pub record Hashing (Hash : Type 0) : Type 0 where
  pub eq : Eq Hash
  pub to_hex : Hash → Text
  pub to_hex_digits : (h : Hash) → all is_hex (to_hex h) ≡ true
  pub to_hex_length : (h : Hash) → length (to_hex h) ≡ 64
  pub to_hex_injective : (h k : Hash) → to_hex h ≡ to_hex k → h ≡ k

pub record TransferRecord (Hash : Type 0) : Type 0 where
  pub collection_hash : Hash
  pub target_dir : Text
  pub bytes_received : ℕ
  pub status : TransferStatus
  pub exported_files : List Text
  pub updated_at : ℕ

-- `RecordStore`
pub record RecordStore : Type 0 where
  pub dir : FilePath

-- `RecordStore::new`
abbrev pub new_store : FilePath → RecordStore
new_store data_dir = record { dir = data_dir ++ transfers_dir ∷ [] }

module _ {F : Type 0} where
  -- The stale file is removed, and the opening tried once more.
  abbrev pub reopened :
      Faults F
      → FilePath
      → Result (IoError F) (Unit {0}) × Disk
      → Result (IoError F) (Unit {0}) × Disk
  reopened f tmp (err already_exists, d) =
      continue (λ _. create_new f.reopen tmp) (remove_file f.remove tmp d)
  reopened f tmp r = r

  -- The part of `save` before the rename.
  unfoldable pub write_tmp : Faults F → FilePath → Bytes → Io F (Unit {0})
  write_tmp f tmp content d =
      continue (λ _. fails f.sync nothing)
        (continue (λ _. write_all f.write f.written tmp content)
          (reopened f tmp (create_new f.open_tmp tmp d)))

  abbrev pub missing_is_fine :
      Result (IoError F) (Unit {0}) × Disk → Result (IoError F) (Unit {0}) × Disk
  missing_is_fine (err not_found, d) = (ok tt, d)
  missing_is_fine r = r

  abbrev pub save_content :
      {E : Type 0} → Faults F → FilePath → FilePath → Result E Bytes → Io F (Unit {0})
  save_content f tmp target (err e) d = (err invalid_data, d)
  save_content f tmp target (ok content) d =
      continue (λ _. rename_file f.rename tmp target) (write_tmp f tmp content d)

module _ {Hash : Type 0} (hashing : Hashing Hash) where
  -- `TransferRecord::new`, at the time `now`.
  abbrev pub new : Hash → Text → ℕ → TransferRecord Hash
  new collection_hash target_dir now = record {
    collection_hash = collection_hash;
    target_dir = target_dir;
    bytes_received = 0;
    status = in_progress;
    exported_files = [];
    updated_at = now;
  }

  -- `TransferRecord::matches`
  abbrev pub matches : TransferRecord Hash → Hash → Text → Bool
  matches r collection_hash target_dir =
      hashing.eq.beq r.collection_hash collection_hash && text_eq r.target_dir target_dir

  abbrev pub record_name : Hash → Text
  record_name h = hashing.to_hex h ++ codes ".json"

  -- `RecordStore::path`
  abbrev pub path : RecordStore → Hash → FilePath
  path store h = store.dir ++ record_name h ∷ []

  abbrev pub tmp_name : Hash → ℕ → ℕ → Text
  tmp_name h pid n =
      b'.' ∷ hashing.to_hex h ++ b'.' ∷ to_string pid ++ b'-' ∷ to_string n ++ codes ".tmp"

  -- `RecordStore::tmp_path`, with the process id and the value of the counter.
  abbrev pub tmp_path : RecordStore → Hash → ℕ → ℕ → FilePath
  tmp_path store h pid n = store.dir ++ tmp_name h pid n ∷ []

  module _ {E : Type 0} (json : Json E (TransferRecord Hash)) where
    abbrev pub matching :
        Hash → Text → Result E (TransferRecord Hash) → Option (TransferRecord Hash)
    matching h target_dir (err e) = none
    matching h target_dir (ok r) = if matches r h target_dir then some r else none

    abbrev pub parsed : Hash → Text → Option Bytes → Option (TransferRecord Hash)
    parsed h target_dir none = none
    parsed h target_dir (some content) = matching h target_dir (json.from_slice content)

  module _ {E F : Type 0} (json : Json E (TransferRecord Hash)) where
    -- `RecordStore::load`; `fault` is a file that cannot be read.
    unfoldable pub load : Option F → RecordStore → Hash → Text → Disk → Option (TransferRecord Hash)
    load none store h target_dir d = parsed json h target_dir (lookup (path store h) d)
    load (some f) store h target_dir d = none

    -- `RecordStore::save`
    unfoldable pub save : Faults F → RecordStore → ℕ → ℕ → TransferRecord Hash → Io F (Unit {0})
    save f store pid n r = fails f.create_dir (
        save_content f (tmp_path store r.collection_hash pid n) (path store r.collection_hash)
          (json.to_vec r))

    -- `RecordStore::delete`
    unfoldable pub delete : Option F → RecordStore → Hash → Io F (Unit {0})
    delete fault store h d = missing_is_fine (remove_file fault (path store h) d)
