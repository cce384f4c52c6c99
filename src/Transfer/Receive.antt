-- ===== src/Transfer/Receive.antt =====
-- A receive, crates/core/src/transfer/receive.rs and receive/core.rs. What the endpoint, the blob
-- store and the clock answer is in `Env`; the disk, the resume record and the progress events that
-- were reported are in `World`.
pub mod Accounts
pub mod Exports
pub mod Keeping
pub mod Downloads
use worddrop.Base.{
  ℕ, suc, ◌+◌, ◌%◌, ◌^◌, Bool, true, false, not, List, [], ◌∷◌, ◌++◌, any, drop, Option, none, some,
  Text, text_eq, Result, ok, err, map_err, leb, ◌==◌, if◌then◌else◌,
}
use worddrop.Base.Table.{lookup}
use worddrop.Protocol.Bytes.{Bytes}
use worddrop.Protocol.Wire.{Json}
use worddrop.Transfer.Files.{FilePath, Disk, path_eq, IoError, Faults, remove_file}
use worddrop.Transfer.Record.{
  Hashing, TransferStatus, done, TransferRecord, RecordStore, load, save, delete,
}
use worddrop.Transfer.Record
use worddrop.Transfer.Target.{export_target, InvalidName}
use worddrop.Transfer.Progress.{
  connecting, downloading, exporting, finished, error, TransferResult, ReceiveError,
  connect_timeout, invalid_collection_name, export, export_stream_ended, remove_existing,
  record_save, Connected, connection, refused, timed_out, GetItem, offset, get_done, get_error, Env,
  World, add64, add_all, at_most, or_zero, zero_result, drain, Step, report, target_dir,
  target_dir_resolve, local_state, connect, sizes, download, load_collection,
}

module _ {Hash F X : Type 0} where
  abbrev pub then_run {ℓ κ} :
      {A : Type ℓ} {B : Type κ}
      → (A → Step Hash F X B)
      → Result (ReceiveError F X) A × World Hash
      → Result (ReceiveError F X) B × World Hash
  then_run f (ok a, w) = f a w
  then_run f (err e, w) = (err e, w)

  abbrev pub counted : TransferResult → ℕ → Unit {0} → Step Hash F X TransferResult
  counted t n _ w = (ok (record t { bytes = add64 t.bytes n; files = add64 t.files 1 }), w)

  -- The record as it is before a save, with the time of the save. The number of saves counts also
  -- those that fail before they draw the name of their temporary file.
  abbrev pub saved :
      TransferRecord Hash
      → World Hash
      → Result (IoError F) (Unit {0}) × Disk
      → Result (ReceiveError F X) (Unit {0}) × World Hash
  saved r w (res, d) =
      (map_err record_save res, record w { disk = d; resume = some r; saves = suc w.saves })

module _ {Hash E F X : Type 0} (hashing : Hashing Hash) (json : Json E (TransferRecord Hash))
    (store : RecordStore) (env : Env Hash F X) where
  unfoldable pub save_record : TransferRecord Hash → Step Hash F X (Unit {0})
  save_record r w =
      let r' = record r { updated_at = env.time w.saves } in
      saved r' w (save hashing json (env.faults w.saves) store env.pid w.saves r' w.disk)

  abbrev pub update_received : ℕ → Option (TransferRecord Hash) → Step Hash F X (Unit {0})
  update_received received none w = (ok tt, w)
  update_received received (some r) w =
      if r.bytes_received == received
      then (ok tt, w)
      else save_record (record r { bytes_received = received }) w

  -- The loop over the items of a download, with the payload's total and the bytes that were here.
  unfoldable pub download_items : List (GetItem X) → ℕ → ℕ → Step Hash F X (Unit {0})
  download_items [] total here w = (ok tt, w)
  download_items (offset n ∷ items) total here w =
      let received = at_most total (add64 here n) in
      then_run (λ _ w'. download_items items total here (report (downloading received total) w'))
        (update_received received w.resume w)
  download_items (get_done ∷ items) total here w = (ok tt, w)
  download_items (get_error x ∷ items) total here w = (err (download x), report error w)

  abbrev pub with_sizes : Result X (List ℕ) → ℕ → Step Hash F X (Unit {0})
  with_sizes (err x) here w = (err (sizes x), report error w)
  with_sizes (ok ns) here w = download_items env.get_items (add_all (drop 1 ns)) here w

  abbrev pub with_connection : Connected X → ℕ → Step Hash F X (Unit {0})
  with_connection connection here w = with_sizes env.blob_sizes here w
  with_connection (refused x) here w = (err (connect x), report error w)
  with_connection timed_out here w = (err connect_timeout, report error w)

  -- Nothing is downloaded when everything is here.
  abbrev pub fetch : Result X (Bool × ℕ) → Step Hash F X (Unit {0})
  fetch (err x) w = (err (local_state x), w)
  fetch (ok (true, here)) w = (ok tt, w)
  fetch (ok (false, here)) w = with_connection env.connected here (report connecting w)

  abbrev pub is_exported : Text → Option (TransferRecord Hash) → Bool
  is_exported name none = false
  is_exported name (some r) = any (λ f. text_eq f name) r.exported_files

  abbrev pub skip : Text → Hash → TransferResult → TransferResult
  skip name h t = record t {
    skipped_bytes = add64 t.skipped_bytes (or_zero (env.complete_size h));
    skipped = t.skipped ++ name ∷ [];
  }

  abbrev pub record_export : Text → Option (TransferRecord Hash) → Step Hash F X (Unit {0})
  record_export name none w = (ok tt, w)
  record_export name (some r) w =
      save_record (record r { exported_files = r.exported_files ++ name ∷ [] }) w

  abbrev pub drained : Text → TransferResult → Result X (ℕ × Bool) → Step Hash F X TransferResult
  drained name t (err x) w = (err (export name x), report error w)
  drained name t (ok (n, false)) w = (err (export_stream_ended name), w)
  drained name t (ok (n, true)) w = then_run (counted t n) (record_export name w.resume w)

  abbrev pub write_out : Text → Hash → FilePath → TransferResult → Step Hash F X TransferResult
  write_out name h target t w =
      let w' = report (exporting name) w in
      drained name t (drain (env.export_items h) 0 false)
        (record w' { disk = env.export_to h target w.disk })

  abbrev pub replaced :
      Text
      → Hash
      → FilePath
      → TransferResult
      → World Hash
      → Result (IoError F) (Unit {0}) × Disk
      → Result (ReceiveError F X) TransferResult × World Hash
  replaced name h target t w (err e, d) = (err (remove_existing target e), record w { disk = d })
  replaced name h target t w (ok u, d) = write_out name h target t (record w { disk = d })

  abbrev pub at_target :
      Text → Hash → FilePath → TransferResult → Option Bytes → Step Hash F X TransferResult
  at_target name h target t none w = write_out name h target t w
  at_target name h target t (some c) w =
      if not env.overwrite
      then (ok (skip name h t), w)
      else replaced name h target t w (remove_file (env.remove_fault target) target w.disk)

  abbrev pub with_target :
      Text → Hash → TransferResult → Result InvalidName FilePath → Step Hash F X TransferResult
  with_target name h t (err e) w = (err (invalid_collection_name e), w)
  with_target name h t (ok target) w = at_target name h target t (lookup target w.disk) w

  -- One round of the export loop.
  unfoldable pub export_file :
      FilePath → Text → Hash → TransferResult → Step Hash F X TransferResult
  export_file root name h t w =
      if is_exported name w.resume
      then (ok (skip name h t), w)
      else with_target name h t (export_target root name) w

  unfoldable pub export_files :
      FilePath → List (Text × Hash) → TransferResult → Step Hash F X TransferResult
  export_files root [] t w = (ok t, w)
  export_files root ((name, h) ∷ files) t w =
      then_run (export_files root files) (export_file root name h t w)

  abbrev pub record_done : Option (TransferRecord Hash) → Step Hash F X (Unit {0})
  record_done none w = (ok tt, w)
  record_done (some r) w = save_record (record r { status = done }) w

  abbrev pub finish : TransferResult → Step Hash F X TransferResult
  finish t w =
      then_run (λ _ w'. (ok t, report (finished t.bytes t.files) w')) (record_done w.resume w)

  abbrev pub export_collection :
      FilePath → Result X (List (Text × Hash)) → Step Hash F X TransferResult
  export_collection root (err x) w = (err (load_collection x), w)
  export_collection root (ok files) w = then_run finish (export_files root files zero_result w)

  abbrev pub with_root : Result F FilePath → Step Hash F X TransferResult
  with_root (err f) w = (err (target_dir_resolve f), w)
  with_root (ok root) w = then_run (λ _. export_collection root env.collection) (fetch env.local w)

  -- `receive_impl`
  unfoldable pub receive_impl : Option F → Step Hash F X TransferResult
  receive_impl (some f) w = (err (target_dir f), w)
  receive_impl none w = with_root env.absolute w

  -- A record that was loaded, or a fresh one.
  abbrev pub loaded_or_new : Hash → Text → ℕ → Option (TransferRecord Hash) → TransferRecord Hash
  loaded_or_new h target now none = Record.new hashing h target now
  loaded_or_new h target now (some r) = r

  -- The delete after a success, whose failure is only logged.
  abbrev pub forget : Option F → Hash → TransferResult → Step Hash F X TransferResult
  forget fault h t w = (ok t, record w { disk = (delete hashing json fault store h w.disk).1 })

  -- `receive_resumable`
  unfoldable pub receive_resumable :
      Option F → Option F → Option F → Hash → Text → Step Hash F X TransferResult
  receive_resumable unreadable uncreated undeleted h target w =
      let r =
        loaded_or_new h target (env.time w.saves)
          (load hashing json unreadable store h target w.disk) in
      then_run (forget undeleted h) (
        then_run (λ _. receive_impl uncreated)
          (saved r w (save hashing json (env.faults w.saves) store env.pid w.saves r w.disk)))

  -- `receive`: no record.
  unfoldable pub receive : Option F → Step Hash F X TransferResult
  receive uncreated w = receive_impl uncreated (record w { resume = none })
