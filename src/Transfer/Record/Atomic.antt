-- ===== src/Transfer/Record/Atomic.antt =====
-- The disk under a save of crates/core/src/transfer/record.rs, whole or broken off.
pub mod Saves
use worddrop.Base.{
  ℕ, ◌≡◌, ◌≢◌, refl, sym, ap, ◌∙◌, Bool, true, false, all, length, [], ◌∷◌, ◌++◌, Option, none,
  some, Text, codes, text_eq, Result, ok, err, err-ne-ok, if◌then◌else◌, take, drop, take-append,
  drop-append, Bool-cases, inl, inr, arith,
}
use worddrop.Base.Table.{lookup, insert, remove, lookup-insert, lookup-insert_self, lookup-remove}
use worddrop.Protocol.Bytes.{Bytes}
use worddrop.Protocol.Wire.{Json}
use worddrop.Transfer.Files.{
  FilePath, Disk, path_eq, same_path, same_path_iff, IoError, not_found, already_exists,
  invalid_data, other, Faults, Io, fails, continue, nothing, created, create_new, removed,
  remove_file, write_all, rename_file,
}
use worddrop.Transfer.Record.{
  Hashing, is_hex, TransferRecord, RecordStore, record_name, path, tmp_name, tmp_path, parsed, load,
  reopened, write_tmp, save_content, save, missing_is_fine, delete,
}

-- Nothing but the file at `tmp` differs.
abbrev Keeps : FilePath → Disk → Disk → Type 0
Keeps tmp d d' = (p : FilePath) → same_path tmp p ≡ false → lookup p d' ≡ lookup p d

module _ {F : Type 0} (f : Faults F) (tmp : FilePath) (content : Bytes) where
  insert-Keeps : (c : Bytes) (d : Disk) → Keeps tmp d (insert tmp c d)
  insert-Keeps c d p h = rw (lookup-insert tmp p c d, h)

  create_new-Keeps : (fault : Option F) (d : Disk) → Keeps tmp d (create_new fault tmp d).1
  create_new-Keeps (some e) d = λ p h. refl
  create_new-Keeps none d = cases (lookup tmp d)
    where
      cases : (o : Option Bytes) → Keeps tmp d (created {F = F} tmp o d).1
      cases none = insert-Keeps [] d
      cases (some c) = λ p h. refl

  remove_file-Keeps : (fault : Option F) (d : Disk) → Keeps tmp d (remove_file fault tmp d).1
  remove_file-Keeps (some e) d = λ p h. refl
  remove_file-Keeps none d = cases (lookup tmp d)
    where
      cases : (o : Option Bytes) → Keeps tmp d (removed {F = F} tmp o d).1
      cases none = λ p h. refl
      cases (some c) = λ p h. rw (lookup-remove tmp p d, h)

  continue-Keeps :
      (d : Disk) (r : Result (IoError F) (Unit {0}) × Disk) (k : Io F (Unit {0}))
      → Keeps tmp d r.1
      → ((e : Disk) → Keeps tmp e (k e).1)
      → Keeps tmp d (continue (λ _. k) r).1
  continue-Keeps d (ok u, e) k a b = λ p h. b e p h ∙ a p h
  continue-Keeps d (err x, e) k a b = a

  reopened-Keeps :
      (d : Disk) (r : Result (IoError F) (Unit {0}) × Disk)
      → Keeps tmp d r.1
      → Keeps tmp d (reopened f tmp r).1
  reopened-Keeps d (ok u, e) a = a
  reopened-Keeps d (err already_exists, e) a =
      continue-Keeps d (remove_file f.remove tmp e) (create_new f.reopen tmp)
        (λ p h. remove_file-Keeps f.remove e p h ∙ a p h) (create_new-Keeps f.reopen)
  reopened-Keeps d (err not_found, e) a = a
  reopened-Keeps d (err invalid_data, e) a = a
  reopened-Keeps d (err (other x), e) a = a

  write_all-Keeps :
      (fault : Option F) (part : Bytes) (d : Disk)
      → Keeps tmp d (write_all fault part tmp content d).1
  write_all-Keeps none part d = insert-Keeps content d
  write_all-Keeps (some e) part d = insert-Keeps part d

  sync-Keeps : (fault : Option F) (d : Disk) → Keeps tmp d (fails fault nothing d).1
  sync-Keeps none d p h = refl
  sync-Keeps (some e) d p h = refl

  write_tmp-Keeps : (d : Disk) → Keeps tmp d (write_tmp f tmp content d).1
  unfolding write_tmp
  write_tmp-Keeps d =
      let opened = reopened-Keeps d (create_new f.open_tmp tmp d) (create_new-Keeps f.open_tmp d) in
      let filled =
        continue-Keeps d _ (write_all f.write f.written tmp content) opened
          (write_all-Keeps f.write f.written) in
      continue-Keeps d _ (fails f.sync nothing) filled (sync-Keeps f.sync)

  written_at :
      (sync write : Option F) (part : Bytes) (r : Result (IoError F) (Unit {0}) × Disk)
      → (continue (λ _. fails sync nothing) (continue (λ _. write_all write part tmp content) r)).0
        ≡ ok tt
      → lookup tmp
          (continue
            (λ _. fails sync nothing)
            (continue (λ _. write_all write part tmp content) r)).1
        ≡ some content
  written_at none none part (ok u, d) h = lookup-insert_self tmp content d
  written_at (some e) none part (ok u, d) h = absurd (err-ne-ok h)
  written_at sync (some e) part (ok u, d) h = absurd (err-ne-ok h)
  written_at sync write part (err e, d) h = absurd (err-ne-ok h)

  write_tmp_written :
      (d : Disk)
      → (write_tmp f tmp content d).0 ≡ ok tt
      → lookup tmp (write_tmp f tmp content d).1 ≡ some content
  unfolding write_tmp
  write_tmp_written d h = written_at f.sync f.write f.written _ h

-- What stands at a path after a save: the new content if the save succeeded and the path is the
-- record's, and otherwise what stood there.
abbrev pub settled :
    {F E : Type 0}
    → Result (IoError F) (Unit {0})
    → Bool
    → Result E Bytes
    → Option Bytes
    → Option Bytes
settled (ok u) true (ok content) old = some content
settled (ok u) true (err e) old = old
settled (ok u) false content old = old
settled (err e) b content old = old

module _ {F : Type 0} (f : Faults F) (tmp target p : FilePath) (apart : same_path tmp p ≡ false)
    (d : Disk) where
  finish_settles :
      (E : Type 0) (fault : Option F) (content : Bytes) (w : Result (IoError F) (Unit {0}) × Disk)
      → Keeps tmp d w.1
      → (w.0 ≡ ok tt → lookup tmp w.1 ≡ some content)
      → let s = continue (λ _. rename_file fault tmp target) w in
        lookup p s.1 ≡ settled {E = E} s.0 (same_path target p) (ok content) (lookup p d)
  finish_settles E fault content (err x, e) k l = k p apart
  finish_settles E (some x) content (ok u, e) k l = k p apart
  finish_settles E none content (ok u, e) k l = elim (Bool-cases (same_path target p)) [
    | inl q ↦ rw (l refl, lookup-insert target p content (remove tmp e), q)
    | inr q ↦
        rw (l refl, lookup-insert target p content (remove tmp e), lookup-remove tmp p e, q, apart)
          (k p apart)
  ]

  pub save_content_settles :
      {E : Type 0} (r : Result E Bytes)
      → let s = save_content f tmp target r d in
        lookup p s.1 ≡ settled s.0 (same_path target p) r (lookup p d)
  save_content_settles {E} (err e) = refl
  save_content_settles {E} (ok content) =
      finish_settles E f.rename content (write_tmp f tmp content d)
        (write_tmp-Keeps f tmp content d) (write_tmp_written f tmp content d)
