-- ===== src/Transfer/Send/Prepare/Complete.antt =====
-- A prepared send as a whole, crates/core/src/transfer/send.rs.
use worddrop.Base.{
  ℕ, ◌%◌, ◌^◌, ◌≡◌, ◌≢◌, refl, sym, ap, subst, ◌∙◌, true, List, [], ◌∷◌, map, All, some, Text,
  Result, ok, err, err-ne-ok, ok_injective, arith,
}
use mathlib.Core.List.{Perm}
use worddrop.Transfer.Files.{FilePath}
use worddrop.Transfer.Send.{FileSystem, Found, text_le, sort_found}
use worddrop.Transfer.Send.Sorting.{IsSorted, sort_found-IsSorted, sort_found-perm}
use worddrop.Transfer.Send.Prepare.{
  ProgressEvent, PreparedFile, PreparedTransfer, Importer, prepared, import_files, import_all,
  discover, prepare_send,
}
use worddrop.Transfer.Send.Prepare.Inventory.{
  imported, AreDistinct, check_names-ok, sort_found-AreDistinct, IsImported, then_run-ok, sum,
  import_files_lem, with_found-ok,
}

-- Each name is before the next one, and another.
abbrev pub IsAscending : Found → Type 0
IsAscending [] = Unit
IsAscending (f ∷ []) = Unit
IsAscending (f ∷ g ∷ fs) = (text_le f.0 g.0 ≡ true) × (f.0 ≢ g.0) × IsAscending (g ∷ fs)

ascending : (fs : Found) → IsSorted fs → AreDistinct fs → IsAscending fs
ascending [] s d = tt
ascending (f ∷ []) s d = tt
ascending (f ∷ g ∷ fs) s d = (s.0, d.0.0, ascending (g ∷ fs) s.1 d.1)

module _ {Hash F X Addr : Type 0} (importer : Importer Hash F X Addr) where
  names_of :
      (files : List (PreparedFile Hash))
      → map {A = Text × FilePath} (λ f. f.0) (map (λ f. (f.name, f.path)) files)
        ≡ map (λ f. f.name) files
  names_of [] = refl
  names_of (f ∷ files) = ap (◌∷◌ f.name) (names_of files)

  -- The inventory of a prepared transfer accounts for what was found.
  abbrev pub Accounts : Found → PreparedTransfer Hash Addr → List ProgressEvent → Type 0
  Accounts found p events =
      Perm (map (λ f. (f.name, f.path)) p.files) found
      × IsAscending (map (λ f. (f.name, f.path)) p.files)
      × All (IsImported importer) p.files
      × (p.total_bytes ≡ sum (map (λ f. f.size) p.files) % 2 ^ 64)
      × (importer.store (map (λ f. (f.name, f.hash)) p.files) ≡ ok p.collection_hash)
      × (p.ticket.hash ≡ p.collection_hash)
      × (imported events ≡ map (λ f. f.name) p.files)

  stored :
      (files : List (PreparedFile Hash)) (total : ℕ) (r : Result X Hash)
      (p : PreparedTransfer Hash Addr) (before events : List ProgressEvent)
      → prepared importer files total r before ≡ (ok p, events)
      → (p.files ≡ files)
        × (p.total_bytes ≡ total)
        × (r ≡ ok p.collection_hash)
        × (p.ticket.hash ≡ p.collection_hash)
        × (events ≡ before)
  stored files total (err x) p before events h = absurd (err-ne-ok (ap (λ r. r.0) h))
  stored files total (ok k) p before events h =
      let same = ok_injective (ap (λ r. r.0) h) in
      (
        sym (ap (λ q. q.files) same),
        sym (ap (λ q. q.total_bytes) same),
        ap (λ q. ok q.collection_hash) same,
        subst (λ q. q.ticket.hash ≡ q.collection_hash) same refl,
        sym (ap (λ r. r.1) h),
      )

  import_all_lem :
      (found : Found) (p : PreparedTransfer Hash Addr) (events : List ProgressEvent)
      → AreDistinct found
      → import_all importer found [] ≡ (ok p, events)
      → Accounts found p events
  unfolding import_all
  import_all_lem found p events distinct h =
      let (made, q, g, run) =
        then_run-ok
          (λ (files, total).
            prepared importer files total (importer.store (map (λ f. (f.name, f.hash)) files)))
          (import_files importer (sort_found found) [] 0 []) (ap (λ r. r.0) h) in
      let ((more, there, kept, all, total_is), names) =
        import_files_lem importer (sort_found found) [] 0 [] made.0 made.1 (omega arith) q in
      let (files_are, total_is', saved, tick, ended) =
        stored made.0 made.1 (importer.store (map (λ f. (f.name, f.hash)) made.0)) p
          (import_files importer (sort_found found) [] 0 []).1 events (sym run ∙ h) in
      let whole : p.files ≡ more = files_are ∙ there in
      let total_sum : made.1 ≡ sum (map (λ f. f.size) p.files) % 2 ^ 64 =
        total_is ∙ rw whole (omega arith) in
      let listed : map (λ f. (f.name, f.path)) p.files ≡ sort_found found =
        ap (map (λ f. (f.name, f.path))) whole ∙ kept in
      (
        rw listed (sort_found-perm found),
        rw listed (
            ascending (sort_found found) (sort_found-IsSorted found)
              (sort_found-AreDistinct found distinct)),
        rw whole all,
        total_is' ∙ total_sum,
        rw files_are saved,
        tick,
        ap imported ended ∙ names ∙ ap (map (λ f. f.0)) (sym listed) ∙ names_of p.files,
      )

  -- A send that is prepared holds exactly the files that the walks found, in ascending order of
  -- their names, no two of which are equal, each with the size and the hash that its import
  -- reported; the total is the sum of the sizes modulo 2^64, the ticket is for the collection that
  -- was stored for these names and hashes, and the import of each name was reported once.
  pub prepare_send_lem :
      (fs : FileSystem F) (rounds : ℕ) (paths : List FilePath) (p : PreparedTransfer Hash Addr)
      (events : List ProgressEvent)
      → prepare_send importer fs rounds paths [] ≡ some (ok p, events)
      → (found : Found) × (discover importer fs rounds paths [] ≡ some (ok found))
        × Accounts found p events
  unfolding prepare_send
  prepare_send_lem fs rounds paths p events h =
      let (found, walked, distinct, made) =
        with_found-ok importer fs (discover importer fs rounds paths []) p [] events h in
      (
        found,
        walked,
        import_all_lem found p events (check_names-ok {F = F} {X = X} [] found distinct) made,
      )
