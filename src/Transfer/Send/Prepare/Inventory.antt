-- ===== src/Transfer/Send/Prepare/Inventory.antt =====
-- What a send that was prepared holds, crates/core/src/transfer/send.rs.
use worddrop.Base.{
  ℕ, ◌+◌, ◌%◌, ◌^◌, ◌<◌, ◌≡◌, ◌≢◌, refl, sym, ap, Result-cases, some_injective, none-ne-some, ◌∙◌,
  true, List, [], ◌∷◌, ◌++◌, append_assoc, append_nil, map, any, All, subst, none, some, Text,
  text_eq, text_eq_self, Result, ok, err, err-ne-ok, ok_injective, Bool-cases, inl, inr, arith,
}
use worddrop.Transfer.Files.{FilePath}
use worddrop.Transfer.Progress.{add64}
use worddrop.Transfer.Send.{SendError, FileSystem, Found, Walk, text_le, insert_found, sort_found}
use worddrop.Transfer.Send.Sorting.{insert_found-All, sort_found-All}
use worddrop.Transfer.Send.Prepare.{
  ProgressEvent, file_found, file_imported, PreparedFile, PreparedTransfer, AddItem, size,
  copy_progress, outboard_progress, copy_done, add_done, add_error, Importer, Step, then_run,
  check_names, import_items, import_files, import_all, with_found,
}

-- The names whose import was reported, in order.
abbrev pub imported : List ProgressEvent → List Text
imported [] = []
imported (file_found name n ∷ es) = imported es
imported (file_imported name ∷ es) = name ∷ imported es

imported-append : (es fs : List ProgressEvent) → imported (es ++ fs) ≡ imported es ++ imported fs
imported-append [] fs = refl
imported-append (file_found name n ∷ es) fs = imported-append es fs
imported-append (file_imported name ∷ es) fs = ap (◌∷◌ name) (imported-append es fs)

-- No two names are equal.
abbrev pub AreDistinct : Found → Type 0
AreDistinct [] = Unit
AreDistinct (f ∷ fs) = All (λ g. f.0 ≢ g.0) fs × AreDistinct fs

module _ {F X : Type 0} where
  fresh :
      (s : Text) (seen : List Text) (fs : Found)
      → any (text_eq s) seen ≡ true
      → check_names {F = F} {X = X} seen fs ≡ ok tt
      → All (λ g. s ≢ g.0) fs
  unfolding check_names
  fresh s seen [] has h = tt
  fresh s seen ((name, path) ∷ fs) has h = elim (Bool-cases (any (text_eq name) seen)) [
    | inl q ↦ absurd (err-ne-ok (rw q at h))
    | inr q ↦ (
      λ e. absurd (ground (arith, subst (λ (t : Text). any (text_eq t) seen ≡ true) e has)),
      fresh s (name ∷ seen) fs (ground arith) (rw q at h),
    )
  ]

  pub check_names-ok :
      (seen : List Text) (fs : Found) → check_names {F = F} {X = X} seen fs ≡ ok tt → AreDistinct fs
  unfolding check_names
  check_names-ok seen [] h = tt
  check_names-ok seen ((name, path) ∷ fs) h = elim (Bool-cases (any (text_eq name) seen)) [
    | inl q ↦ absurd (err-ne-ok (rw q at h))
    | inr q ↦ (
      fresh name (name ∷ seen) fs (rw (text_eq_self name)) (rw q at h),
      check_names-ok (name ∷ seen) fs (rw q at h),
    )
  ]

insert_found-AreDistinct :
    (f : Text × FilePath) (fs : Found)
    → All (λ g. f.0 ≢ g.0) fs
    → AreDistinct fs
    → AreDistinct (insert_found f fs)
insert_found-AreDistinct f [] a d = (tt, tt)
insert_found-AreDistinct f (g ∷ fs) a d = elim (Bool-cases (text_le f.0 g.0)) [
  | inl q ↦ rw q (a, d)
  | inr q ↦ rw q (
    insert_found-All (λ h. g.0 ≢ h.0) f fs (λ e. a.0 (sym e)) d.0,
    insert_found-AreDistinct f fs a.1 d.1,
  )
]

pub sort_found-AreDistinct : (fs : Found) → AreDistinct fs → AreDistinct (sort_found fs)
unfolding sort_found
sort_found-AreDistinct [] d = tt
sort_found-AreDistinct (f ∷ fs) d =
    insert_found-AreDistinct f (sort_found fs) (sort_found-All (λ g. f.0 ≢ g.0) fs d.0)
      (sort_found-AreDistinct fs d.1)

-- What the items of an import come to: the last size before the end, and the hash.
abbrev pub last_size : {Hash F : Type 0} → ℕ → List (AddItem Hash F) → ℕ
last_size n (size m ∷ items) = last_size m items
last_size n (_ ∷ items) = last_size n items
last_size n [] = n

abbrev pub IsProgress : {Hash F : Type 0} → AddItem Hash F → Type 0
IsProgress (add_done h) = ⊥
IsProgress (add_error e) = ⊥
IsProgress _ = Unit

abbrev pub ImportedAs : {Hash F : Type 0} → ℕ → ℕ → Hash → List (AddItem Hash F) → Type 0
ImportedAs {Hash} {F} start n h items =
    (front : List (AddItem Hash F)) × (rest : List (AddItem Hash F)) × (items
      ≡ front ++ add_done h ∷ rest)
    × All IsProgress front
    × (last_size start front ≡ n)

onto :
    {Hash F : Type 0} (start start' n : ℕ) (h : Hash) (item : AddItem Hash F)
    (items : List (AddItem Hash F))
    → IsProgress item
    → ((front : List (AddItem Hash F)) → last_size start (item ∷ front) ≡ last_size start' front)
    → ImportedAs start' n h items
    → ImportedAs start n h (item ∷ items)
onto start start' n h item items p same (front, rest, e, ps, l) =
    (item ∷ front, rest, ap (◌∷◌ item) e, (p, ps), same front ∙ l)

module _ {Hash F X : Type 0} where
  import_items_lem :
      (name : Text) (start : ℕ) (items : List (AddItem Hash F)) (events : List ProgressEvent)
      {n : ℕ} {h : Hash}
      → (import_items {X = X} name start items events).0 ≡ ok (n, h)
      → ImportedAs start n h items
        × (imported (import_items {X = X} name start items events).1 ≡ imported events ++ name ∷ [])
  unfolding import_items
  import_items_lem name start [] events e = absurd (err-ne-ok e)
  import_items_lem name start (add_error f ∷ items) events e = absurd (err-ne-ok e)
  import_items_lem name start (add_done k ∷ items) events {n} {h} e =
      let same = ok_injective e in
      (
        (
          [],
          items,
          ap (λ (j : Hash). add_done j ∷ items) (ap (λ p. p.1) same),
          tt,
          ap (λ p. p.0) same,
        ),
        imported-append events (file_imported name ∷ []),
      )
  import_items_lem name start (size m ∷ items) events {n} {h} e =
      let (like, done) = import_items_lem name m items (events ++ file_found name m ∷ []) e in
      (
        onto start m n h (size m) items tt (λ front. refl) like,
        done
            ∙ ap (λ (l : List Text). l ++ name ∷ [])
                (imported-append events (file_found name m ∷ []) ∙ append_nil (imported events)),
      )
  import_items_lem name start (copy_progress m ∷ items) events {n} {h} e =
      let (like, done) = import_items_lem name start items events e in
      (onto start start n h (copy_progress m) items tt (λ front. refl) like, done)
  import_items_lem name start (outboard_progress m ∷ items) events {n} {h} e =
      let (like, done) = import_items_lem name start items events e in
      (onto start start n h (outboard_progress m) items tt (λ front. refl) like, done)
  import_items_lem name start (copy_done ∷ items) events {n} {h} e =
      let (like, done) = import_items_lem name start items events e in
      (onto start start n h copy_done items tt (λ front. refl) like, done)

pub then_run-ok :
    {F X A B : Type 0} (f : A → Step F X B) (r : Result (SendError F X) A × List ProgressEvent)
    {b : B}
    → (then_run f r).0 ≡ ok b
    → (a : A) × (r.0 ≡ ok a) × ((f a r.1).0 ≡ ok b) × (then_run f r ≡ f a r.1)
then_run-ok f (ok a, events) h = (a, refl, h, refl)
then_run-ok f (err e, events) h = absurd (err-ne-ok h)

abbrev pub sum : List ℕ → ℕ
sum [] = 0
sum (n ∷ ns) = n + sum ns

module _ {Hash F X Addr : Type 0} (importer : Importer Hash F X Addr) where
  -- The file has the size and the hash that its import reported.
  abbrev pub IsImported : PreparedFile Hash → Type 0
  IsImported f = ImportedAs 0 f.size f.hash (importer.add_path f.path)

  -- What a run of the import loop adds, for these names and paths.
  abbrev pub Adds : Found → List (PreparedFile Hash) → ℕ → List (PreparedFile Hash) → ℕ → Type 0
  Adds fs before total after total' =
      (more : List (PreparedFile Hash)) × (after ≡ before ++ more)
      × (map (λ f. (f.name, f.path)) more ≡ fs)
      × All IsImported more
      × (total' ≡ (total + sum (map (λ f. f.size) more)) % 2 ^ 64)

  pub import_files_lem :
      (fs : Found) (before : List (PreparedFile Hash)) (total : ℕ) (events : List ProgressEvent)
      (after : List (PreparedFile Hash)) (total' : ℕ)
      → total < 2 ^ 64
      → (import_files importer fs before total events).0 ≡ ok (after, total')
      → Adds fs before total after total'
        × (imported (import_files importer fs before total events).1
            ≡ imported events ++ map (λ f. f.0) fs)
  unfolding import_files
  import_files_lem [] before total events after total' small e =
      let same = ok_injective e in
      (
        (
          [],
          sym (ap (λ p. p.0) same) ∙ sym (append_nil before),
          refl,
          tt,
          sym (ap (λ p. p.1) same) ∙ omega arith,
        ),
        sym (append_nil (imported events)),
      )
  import_files_lem ((name, path) ∷ fs) before total events after total' small e =
      let items = import_items {X = X} name 0 (importer.add_path path) events in
      let (made, q, g, run) =
        then_run-ok
          (λ (n, h).
            import_files importer fs
              (before ++ record { path = path; name = name; size = n; hash = h } ∷ [])
              (add64 total n))
          items e in
      let file : PreparedFile Hash = record {
        path = path;
        name = name;
        size = made.0;
        hash = made.1;
      } in
      let (like, done) = import_items_lem name 0 (importer.add_path path) events q in
      let ((more, there, kept, all, total_is), names) =
        import_files_lem fs (before ++ file ∷ []) (add64 total made.0) items.1 after total'
          (omega arith) g in
      (
        (
          file ∷ more,
          there ∙ append_assoc before (file ∷ []) more,
          ap (◌∷◌ (name, path)) kept,
          (like, all),
          total_is ∙ omega arith,
        ),
        ap (λ r. imported r.1) run
            ∙ names
            ∙ ap (λ (l : List Text). l ++ map (λ f. f.0) fs) done
            ∙ append_assoc (imported events) (name ∷ []) (map (λ f. f.0) fs),
      )

  module _ (fs : FileSystem F) where
    pub with_found-ok :
        (w : Walk F X) (p : PreparedTransfer Hash Addr) (start events : List ProgressEvent)
        → with_found importer start w ≡ some (ok p, events)
        → (found : Found) × (w ≡ some (ok found))
          × (check_names {F = F} {X = X} [] found ≡ ok tt)
          × (import_all importer found start ≡ (ok p, events))
    with_found-ok none p start events h = absurd (none-ne-some h)
    with_found-ok (some (err e)) p start events h =
        absurd (err-ne-ok (ap (λ r. r.0) (some_injective h)))
    with_found-ok (some (ok found)) p start events h =
        elim (Result-cases (check_names {F = F} {X = X} [] found)) [
          | inl (tt, q) ↦ (found, refl, q, rw q at (some_injective h))
          | inr (failed, q) ↦ absurd (err-ne-ok (ap (λ r. r.0) (rw q at (some_injective h))))
        ]
