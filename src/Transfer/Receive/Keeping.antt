-- ===== src/Transfer/Receive/Keeping.antt =====
-- Files that were there before a receive of crates/core/src/transfer/receive that does not overwrite.
use worddrop.Base.{
  ℕ, ◌≡◌, ◌≢◌, inl, inr, refl, sym, ◌∙◌, ap, Bool, true, false, List, [], ◌∷◌, ◌++◌, Option, none,
  some, Text, Result, ok, err, Bool-cases, drop, ◌==◌,
}
use worddrop.Base.Table.{lookup}
use worddrop.Protocol.Bytes.{Bytes}
use worddrop.Protocol.Wire.{Json}
use worddrop.Transfer.Files.{
  FilePath, Disk, path_eq, same_path, same_path_iff, IoError, Faults, fails,
}
use worddrop.Transfer.Record.{
  Hashing, TransferRecord, RecordStore, record_name, path, tmp_name, tmp_path, save, save_content,
}
use worddrop.Transfer.Record.Atomic.{settled, save_content_settles}
use worddrop.Transfer.Target.{InvalidName, export_target}
use worddrop.Transfer.Receive.{
  then_run, counted, save_record, update_received, download_items, with_sizes, with_connection,
  fetch, is_exported, record_export, drained, at_target, with_target, export_file, export_files,
  record_done, finish, export_collection, with_root, receive_impl,
}
use worddrop.Transfer.Progress.{
  TransferResult, ReceiveError, World, Env, Connected, connection, refused, timed_out, GetItem,
  offset, get_done, get_error, downloading, connecting, finished, zero_result, at_most, add64,
  add_all, report, drain,
}

settled_elsewhere :
    {F E : Type 0} (r : Result (IoError F) (Unit {0})) (c : Result E Bytes) (old : Option Bytes)
    → settled r false c old ≡ old
settled_elsewhere (ok u) (ok content) old = refl
settled_elsewhere (ok u) (err e) old = refl
settled_elsewhere (err e) c old = refl

apart_path : (p q : FilePath) → p ≢ q → same_path q p ≡ false
apart_path p q h = elim (Bool-cases (same_path q p)) [
  | inl s ↦ absurd (h (sym ((same_path_iff q p).0 s)))
  | inr s ↦ s
]

module _ {Hash E F X : Type 0} (hashing : Hashing Hash) (json : Json E (TransferRecord Hash))
    (store : RecordStore) (env : Env Hash F X) (p : FilePath) (c : Bytes)
    (outside : (name : Text) → p ≢ store.dir ++ name ∷ []) where
  -- The file at `p` is `c`.
  abbrev pub Holds : World Hash → Type 0
  Holds w = lookup p w.disk ≡ some c

  save_elsewhere :
      (f : Faults F) (n : ℕ) (r : TransferRecord Hash) (d : Disk)
      → lookup p (save hashing json f store env.pid n r d).1 ≡ lookup p d
  unfolding save
  save_elsewhere f n r d = created_dir f.create_dir
    where
      tmp : FilePath
      tmp = tmp_path hashing store r.collection_hash env.pid n

      created_dir :
          (fault : Option F)
          → lookup p
              (fails fault
                (save_content f tmp (path hashing store r.collection_hash) (json.to_vec r))
                d).1
            ≡ lookup p d
      created_dir (some e) = refl
      created_dir none =
          save_content_settles f tmp (path hashing store r.collection_hash) p
            (apart_path p tmp (outside (tmp_name hashing r.collection_hash env.pid n))) d
            (json.to_vec r)
          ∙ rw (apart_path p _ (outside (record_name hashing r.collection_hash)))
              (settled_elsewhere _ (json.to_vec r) (lookup p d))

  save_record-Holds :
      (r : TransferRecord Hash) (w : World Hash)
      → Holds w
      → Holds (save_record hashing json store env r w).1
  unfolding save_record
  save_record-Holds r w h = save_elsewhere (env.faults w.saves) w.saves _ w.disk ∙ h

  then_run-Holds {ℓ κ} :
      {A : Type ℓ} {B : Type κ} (f : A → World Hash → Result (ReceiveError F X) B × World Hash)
      (r : Result (ReceiveError F X) A × World Hash)
      → Holds r.1
      → ((a : A) (w : World Hash) → Holds w → Holds (f a w).1)
      → Holds (then_run f r).1
  then_run-Holds f (ok a, w) h k = k a w h
  then_run-Holds f (err e, w) h k = h

  update_received-Holds :
      (n : ℕ) (o : Option (TransferRecord Hash)) (w : World Hash)
      → Holds w
      → Holds (update_received hashing json store env n o w).1
  update_received-Holds n none w h = h
  update_received-Holds n (some r) w h = elim (Bool-cases (r.bytes_received == n)) [
    | inl q ↦ rw q h
    | inr q ↦ rw q (save_record-Holds (record r { bytes_received = n }) w h)
  ]

  download_items-Holds :
      (items : List (GetItem X)) (total here : ℕ) (w : World Hash)
      → Holds w
      → Holds (download_items hashing json store env items total here w).1
  unfolding download_items
  download_items-Holds [] total here w h = h
  download_items-Holds (offset n ∷ items) total here w h =
      let received = at_most total (add64 here n) in
      then_run-Holds
        (λ _ v.
          download_items hashing json store env items total here
            (report (downloading received total) v))
        (update_received hashing json store env received w.resume w)
        (update_received-Holds received w.resume w h)
        (λ _ v k. download_items-Holds items total here (report (downloading received total) v) k)
  download_items-Holds (get_done ∷ items) total here w h = h
  download_items-Holds (get_error x ∷ items) total here w h = h

  with_connection-Holds :
      (k : Connected X) (here : ℕ) (w : World Hash)
      → Holds w
      → Holds (with_connection hashing json store env k here w).1
  with_connection-Holds (refused x) here w h = h
  with_connection-Holds timed_out here w h = h
  with_connection-Holds connection here w h = sized env.blob_sizes
    where
      sized : (r : Result X (List ℕ)) → Holds (with_sizes hashing json store env r here w).1
      sized (err x) = h
      sized (ok ns) = download_items-Holds env.get_items (add_all (drop 1 ns)) here w h

  fetch-Holds :
      (r : Result X (Bool × ℕ)) (w : World Hash)
      → Holds w
      → Holds (fetch hashing json store env r w).1
  fetch-Holds (err x) w h = h
  fetch-Holds (ok (true, here)) w h = h
  fetch-Holds (ok (false, here)) w h =
      with_connection-Holds env.connected here (report connecting w) h

  record_export-Holds :
      (name : Text) (o : Option (TransferRecord Hash)) (w : World Hash)
      → Holds w
      → Holds (record_export hashing json store env name o w).1
  record_export-Holds name none w h = h
  record_export-Holds name (some r) w h = save_record-Holds _ w h

  drained-Holds :
      (name : Text) (t : TransferResult) (r : Result X (ℕ × Bool)) (w : World Hash)
      → Holds w
      → Holds (drained hashing json store env name t r w).1
  drained-Holds name t (err x) w h = h
  drained-Holds name t (ok (n, false)) w h = h
  drained-Holds name t (ok (n, true)) w h =
      then_run-Holds (counted t n) (record_export hashing json store env name w.resume w)
        (record_export-Holds name w.resume w h) (λ _ v k. k)

  finish-Holds :
      (t : TransferResult) (w : World Hash) → Holds w → Holds (finish hashing json store env t w).1
  finish-Holds t w h =
      then_run-Holds (λ _ v. (ok t, report (finished t.bytes t.files) v))
        (record_done hashing json store env w.resume w) (marked w.resume) (λ _ v k. k)
    where
      marked : (o : Option (TransferRecord Hash)) → Holds (record_done hashing json store env o w).1
      marked none = h
      marked (some r) = save_record-Holds _ w h

  module _ (kept : env.overwrite ≡ false)
      (elsewhere : (file : Hash) (target q : FilePath) (d : Disk)
        → target ≢ q
        → lookup q (env.export_to file target d) ≡ lookup q d) where
    at_target-Holds :
        (name : Text) (file : Hash) (target : FilePath) (t : TransferResult) (o : Option Bytes)
        (w : World Hash)
        → lookup target w.disk ≡ o
        → Holds w
        → Holds (at_target hashing json store env name file target t o w).1
    at_target-Holds name file target t (some b) w q h = rw kept h
    at_target-Holds name file target t none w q h =
        drained-Holds name t (drain (env.export_items file) 0 false) _
          (elsewhere file target p w.disk (λ same. clash same) ∙ h)
      where
        clash : target ≡ p → ⊥
        clash same =
            let missing : none ≡ some c = sym q ∙ ap (λ x. lookup x w.disk) same ∙ h in cc missing

    export_file-Holds :
        (root : FilePath) (name : Text) (file : Hash) (t : TransferResult) (w : World Hash)
        → Holds w
        → Holds (export_file hashing json store env root name file t w).1
    unfolding export_file
    export_file-Holds root name file t w h =
        elim (Bool-cases (is_exported hashing json store env name w.resume)) [
          | inl q ↦ rw q h
          | inr q ↦ rw q (named (export_target root name))
        ]
      where
        named :
            (r : Result InvalidName FilePath)
            → Holds (with_target hashing json store env name file t r w).1
        named (err e) = h
        named (ok target) = at_target-Holds name file target t (lookup target w.disk) w refl h

    export_files-Holds :
        (root : FilePath) (files : List (Text × Hash)) (t : TransferResult) (w : World Hash)
        → Holds w
        → Holds (export_files hashing json store env root files t w).1
    unfolding export_files
    export_files-Holds root [] t w h = h
    export_files-Holds root ((name, file) ∷ files) t w h =
        then_run-Holds (export_files hashing json store env root files)
          (export_file hashing json store env root name file t w)
          (export_file-Holds root name file t w h) (λ u v k. export_files-Holds root files u v k)

    -- Without `overwrite`, a file that is there before a receive, outside the directory of the
    -- records, is there afterwards with the same content, however the receive ends, if the store
    -- writes an export nowhere but at its target.
    pub receive_impl-Holds :
        (uncreated : Option F) (w : World Hash)
        → Holds w
        → Holds (receive_impl hashing json store env uncreated w).1
    unfolding receive_impl
    receive_impl-Holds (some f) w h = h
    receive_impl-Holds none w h = rooted env.absolute
      where
        collected :
            (root : FilePath) (r : Result X (List (Text × Hash))) (v : World Hash)
            → Holds v
            → Holds (export_collection hashing json store env root r v).1
        collected root (err x) v k = k
        collected root (ok files) v k =
            then_run-Holds (finish hashing json store env)
              (export_files hashing json store env root files zero_result v)
              (export_files-Holds root files zero_result v k) (λ t u l. finish-Holds t u l)

        rooted : (r : Result F FilePath) → Holds (with_root hashing json store env r w).1
        rooted (err f) = h
        rooted (ok root) =
            then_run-Holds (λ _. export_collection hashing json store env root env.collection)
              (fetch hashing json store env env.local w) (fetch-Holds env.local w h)
              (λ _ v k. collected root env.collection v k)
