-- ===== src/Transfer/Record/Atomic/Saves.antt =====
-- The records of crates/core/src/transfer/record.rs after a save and after a delete.
use worddrop.Base.{
  ℕ, ◌≡◌, ◌≢◌, refl, sym, ap, ◌∙◌, true, false, all, length, [], ◌∷◌, ◌++◌, Option, none, some,
  Text, codes, text_eq, Result, ok, err, err-ne-ok, if◌then◌else◌, take, drop, take-append,
  drop-append, Bool-cases, inl, inr, arith,
}
use worddrop.Base.Table.{lookup, lookup-remove}
use worddrop.Protocol.Bytes.{Bytes}
use worddrop.Protocol.Wire.{Json}
use worddrop.Transfer.Files.{
  FilePath, Disk, path_eq, same_path, same_path_iff, Faults, fails, removed,
}
use worddrop.Transfer.Record.{
  Hashing, is_hex, TransferRecord, RecordStore, record_name, path, tmp_name, tmp_path, parsed, load,
  save_content, save, missing_is_fine, delete,
}
use worddrop.Transfer.Record.Atomic.{settled, save_content_settles}

pub append_injective : (dir : FilePath) (a b : Text) → dir ++ a ∷ [] ≡ dir ++ b ∷ [] → a ≡ b
append_injective dir a b h =
    let tails : a ∷ [] ≡ b ∷ [] =
      sym (drop-append dir (a ∷ [])) ∙ ap (drop (length dir)) h ∙ drop-append dir (b ∷ []) in
    ground arith

module _ {Hash : Type 0} (hashing : Hashing Hash) (store : RecordStore) where
  dot_apart : (s t rest : Text) → length s ≡ 64 → all is_hex s ≡ true → s ++ rest ≢ b'.' ∷ t
  dot_apart [] t rest n h e = absurd (omega arith)
  dot_apart (c ∷ s) t rest n h e =
      let first : c ≡ b'.' = ground arith in absurd (ground (arith, rw first at h))

  tmp_apart :
      (h j : Hash) (pid n : ℕ)
      → same_path (tmp_path hashing store h pid n) (path hashing store j) ≡ false
  tmp_apart h j pid n =
      elim (Bool-cases (same_path (tmp_path hashing store h pid n) (path hashing store j))) [
        | inr q ↦ q
        | inl q ↦ absurd (
            dot_apart (hashing.to_hex j) _ (codes ".json") (hashing.to_hex_length j)
              (hashing.to_hex_digits j)
              (sym (
                append_injective store.dir (tmp_name hashing h pid n) (record_name hashing j)
                  ((same_path_iff _ _).0 q))))
      ]

  record_name_injective : (h j : Hash) → record_name hashing h ≡ record_name hashing j → h ≡ j
  record_name_injective h j e =
      let front : (k : Hash) → take 64 (record_name hashing k) ≡ hashing.to_hex k =
        λ k. rw (← hashing.to_hex_length k) (take-append (hashing.to_hex k) (codes ".json")) in
      hashing.to_hex_injective h j (sym (front h) ∙ ap (take 64) e ∙ front j)

  same_record :
      (h j : Hash) → same_path (path hashing store h) (path hashing store j) ≡ hashing.eq.beq h j
  same_record h j = elim (Bool-cases (hashing.eq.beq h j)) [
    | inl q ↦ rw q ((same_path_iff _ _).1 (ap (path hashing store) ((hashing.eq.beq_iff h j).0 q)))
    | inr q ↦ elim (Bool-cases (same_path (path hashing store h) (path hashing store j))) [
      | inr r ↦ r ∙ sym q
      | inl r ↦
          let same : h ≡ j = record_name_injective h j (
            append_injective store.dir (record_name hashing h) (record_name hashing j)
              ((same_path_iff _ _).0 r)) in
          absurd (ground (arith, q, (hashing.eq.beq_iff h j).1 same))
    ]
  ]

  module _ {E F : Type 0} (json : Json E (TransferRecord Hash)) where
    -- However a save ends, the file of every record is as it was before, unless the save succeeded
    -- and the record is the one saved: then the file holds the whole of the new content.
    pub save_lem :
        (f : Faults F) (pid n : ℕ) (r : TransferRecord Hash) (j : Hash) (d : Disk)
        → let s = save hashing json f store pid n r d in
          lookup (path hashing store j) s.1
          ≡ settled s.0
              (hashing.eq.beq r.collection_hash j)
              (json.to_vec r)
              (lookup (path hashing store j) d)
    unfolding save
    save_lem f pid n r j d = created_dir f.create_dir
      where
        created_dir :
            (fault : Option F)
            → let s =
                fails fault
                  (save_content f
                    (tmp_path hashing store r.collection_hash pid n)
                    (path hashing store r.collection_hash)
                    (json.to_vec r))
                  d in
              lookup (path hashing store j) s.1
              ≡ settled s.0
                  (hashing.eq.beq r.collection_hash j)
                  (json.to_vec r)
                  (lookup (path hashing store j) d)
        created_dir (some e) = refl
        created_dir none = rw (← same_record r.collection_hash j) (
            save_content_settles f (tmp_path hashing store r.collection_hash pid n)
              (path hashing store r.collection_hash) (path hashing store j)
              (tmp_apart r.collection_hash j pid n) d (json.to_vec r))

    save_unserialized :
        (f : Faults F) (pid n : ℕ) (r : TransferRecord Hash) (d : Disk) (e : E)
        → json.to_vec r ≡ err e
        → (save hashing json f store pid n r d).0 ≢ ok tt
    unfolding save
    save_unserialized f pid n r d e q h = stuck f.create_dir (rw q at h)
      where
        stuck :
            (fault : Option F)
            → (fails fault
                (save_content {E = E} f
                  (tmp_path hashing store r.collection_hash pid n)
                  (path hashing store r.collection_hash)
                  (err e))
                d).0
              ≢ ok tt
        stuck none k = err-ne-ok k
        stuck (some x) k = err-ne-ok k

    -- A record whose save succeeded is loaded again for its hash and its target directory, and for
    -- no other target directory.
    load-save :
        (f : Faults F) (pid n : ℕ) (r : TransferRecord Hash) (target_dir : Text) (d : Disk)
        → (save hashing json f store pid n r d).0 ≡ ok tt
        → load hashing {F = F} json none store r.collection_hash target_dir
            (save hashing json f store pid n r d).1
          ≡ (if text_eq r.target_dir target_dir then some r else none)
    unfolding load
    load-save f pid n r target_dir d h = cases (json.to_vec r) refl
      where
        cases :
            (res : Result E Bytes)
            → json.to_vec r ≡ res
            → parsed hashing json r.collection_hash target_dir (
                lookup
                  (path hashing store r.collection_hash)
                  (save hashing json f store pid n r d).1)
              ≡ (if text_eq r.target_dir target_dir then some r else none)
        cases (err e) q = absurd (save_unserialized f pid n r d e q h)
        cases (ok content) q =
            let same : hashing.eq.beq r.collection_hash r.collection_hash ≡ true =
              (hashing.eq.beq_iff r.collection_hash r.collection_hash).1 refl in
            let stored : lookup (path hashing store r.collection_hash)
                  (save hashing json f store pid n r d).1
                ≡ some content =
              save_lem f pid n r r.collection_hash d ∙ rw (h, same, q) in
            rw (stored, json.round_trip r content q, same)

    -- After a successful delete the record's file is gone, and every other record's file is as it
    -- was.
    delete_lem :
        (fault : Option F) (h j : Hash) (d : Disk)
        → (delete hashing json fault store h d).0 ≡ ok tt
        → lookup (path hashing store j) (delete hashing json fault store h d).1
          ≡ (if hashing.eq.beq h j then none else lookup (path hashing store j) d)
    unfolding delete
    delete_lem (some x) h j d e = absurd (err-ne-ok e)
    delete_lem none h j d e = cases (lookup (path hashing store h) d) refl
      where
        cases :
            (o : Option Bytes)
            → lookup (path hashing store h) d ≡ o
            → lookup
                (path hashing store j)
                (missing_is_fine {F = F} (removed (path hashing store h) o d)).1
              ≡ (if hashing.eq.beq h j then none else lookup (path hashing store j) d)
        cases none q = elim (Bool-cases (hashing.eq.beq h j)) [
          | inl same ↦ rw same (rw (← (hashing.eq.beq_iff h j).0 same) q)
          | inr q' ↦ rw q'
        ]
        cases (some c) q =
            rw (lookup-remove (path hashing store h) (path hashing store j) d, same_record h j)
