-- ===== src/Transfer/Receive/Exports.antt =====
-- The export loop of crates/core/src/transfer/receive/core.rs over a whole collection.
use worddrop.Base.{
  ℕ, suc, ◌%◌, ◌^◌, ◌<◌, ◌≡◌, inl, inr, refl, sym, ap, append_assoc, append_nil, ◌∙◌, All, false,
  Option, none, some, List, [], ◌∷◌, ◌++◌, map, length, Text, Result, ok, err, err-ne-ok,
  ok_injective, arith,
}
use mathlib.Core.Path.{subst}
use worddrop.Protocol.Wire.{Json}
use worddrop.Transfer.Files.{FilePath}
use worddrop.Transfer.Record.{Hashing, TransferRecord, RecordStore}
use worddrop.Transfer.Receive.{is_exported, then_run, export_file, export_files}
use worddrop.Transfer.Progress.{
  exporting, TransferResult, ReceiveError, World, Env, add64, zero_result,
}
use worddrop.Transfer.Receive.Accounts.{
  Merged, empty, first, second, names, remembered, remembered_more, remembers, remembers_more,
  Handled, export_file_lem,
}

add64_small : (a k : ℕ) → add64 (add64 a 1) k ≡ add64 a (suc k)
add64_small a k = omega arith

add64_below : (a b : ℕ) → add64 a b < 2 ^ 64
add64_below a b = omega arith

add64_zero : (a : ℕ) → a < 2 ^ 64 → a ≡ add64 a 0
add64_zero a h = omega arith

from_zero : (k : ℕ) → add64 0 k ≡ k % 2 ^ 64
from_zero k = omega arith

module _ {Hash E F X : Type 0} (hashing : Hashing Hash) (json : Json E (TransferRecord Hash))
    (store : RecordStore) (env : Env Hash F X) where
  record Accounted (files : List (Text × Hash)) (t t' : TransferResult) (w w' : World Hash)
      : Type 0 where
    exported : List Text
    newly : List Text
    merged : Merged exported newly (names files)
    skipped : t'.skipped ≡ t.skipped ++ newly
    counted : t'.files ≡ add64 t.files (length exported)
    reported : w'.progress ≡ w.progress ++ map exporting exported
    recorded : remembered w'.resume [] ≡ remembered w.resume exported
    fresh : All (λ n. remembers n w.resume ≡ false) exported

  none_left : (t : TransferResult) (w : World Hash) → t.files < 2 ^ 64 → Accounted [] t t w w
  none_left t w small = record {
    exported = [];
    newly = [];
    merged = empty;
    skipped = sym (append_nil t.skipped);
    counted = add64_zero t.files small;
    reported = sym (append_nil w.progress);
    recorded = refl;
    fresh = tt;
  }

  unremembered :
      (name : Text) (o : Option (TransferRecord Hash))
      → is_exported hashing json store env name o ≡ false
      → remembers name o ≡ false
  unremembered name none h = refl
  unremembered name (some r) h = h

  older :
      (o q : Option (TransferRecord Hash)) (xs ns : List Text)
      → remembered q [] ≡ remembered o xs
      → All (λ n. remembers n q ≡ false) ns
      → All (λ n. remembers n o ≡ false) ns
  older o q xs [] h a = tt
  older o q xs (n ∷ ns) h a = (remembers_more n o q xs h a.0, older o q xs ns h a.1)

  one_more :
      (name : Text) (file : Hash) (files : List (Text × Hash)) (t u t' : TransferResult)
      (w v w' : World Hash)
      → Handled hashing json store env name file t u w v
      → Accounted files u t' v w'
      → Accounted ((name, file) ∷ files) t t' w w'
  one_more name file files t u t' w v w' (inl (skip, same, still)) a = record {
    exported = a.exported;
    newly = name ∷ a.newly;
    merged = second a.merged;
    skipped = a.skipped ∙ ap (λ x. x ++ a.newly) skip ∙ append_assoc t.skipped (name ∷ []) a.newly;
    counted = a.counted ∙ ap (λ x. add64 x (length a.exported)) same;
    reported = a.reported ∙ ap (λ (x : World Hash). x.progress ++ map exporting a.exported) still;
    recorded = a.recorded ∙ ap (λ (x : World Hash). remembered x.resume a.exported) still;
    fresh =
        subst (λ (x : World Hash). All (λ n. remembers n x.resume ≡ false) a.exported) still
          a.fresh;
  }
  one_more name file files t u t' w v w' (inr (fresh, o)) a = record {
    exported = name ∷ a.exported;
    newly = a.newly;
    merged = first a.merged;
    skipped = a.skipped ∙ ap (λ x. x ++ a.newly) o.skipped;
    counted =
        a.counted
        ∙ ap (λ x. add64 x (length a.exported)) o.files
        ∙ add64_small t.files (length a.exported);
    reported =
        a.reported
        ∙ ap (λ x. x ++ map exporting a.exported) o.reported
        ∙ append_assoc w.progress (exporting name ∷ []) (map exporting a.exported);
    recorded = a.recorded ∙ remembered_more w.resume v.resume (name ∷ []) a.exported o.recorded;
    fresh = (
      unremembered name w.resume fresh,
      older w.resume v.resume (name ∷ []) a.exported o.recorded a.fresh,
    );
  }

  small_after :
      (name : Text) (file : Hash) (t u : TransferResult) (w v : World Hash)
      → t.files < 2 ^ 64
      → Handled hashing json store env name file t u w v
      → u.files < 2 ^ 64
  small_after name file t u w v small (inl (skip, same, still)) =
      subst (λ x. x < 2 ^ 64) (sym same) small
  small_after name file t u w v small (inr (fresh, o)) =
      subst (λ x. x < 2 ^ 64) (sym o.files) (add64_below t.files 1)

  loop_Accounted :
      (root : FilePath) (files : List (Text × Hash)) (t t' : TransferResult) (w : World Hash)
      → t.files < 2 ^ 64
      → (export_files hashing json store env root files t w).0 ≡ ok t'
      → Accounted files t t' w (export_files hashing json store env root files t w).1
  unfolding export_files
  loop_Accounted root [] t t' w small h =
      subst (λ x. Accounted [] t x w w) (ok_injective h) (none_left t w small)
  loop_Accounted root ((name, file) ∷ files) t t' w small h =
      go (export_file hashing json store env root name file t w)
        (λ u k. export_file_lem hashing json store env root name file t u w k)
        (λ u v k. loop_Accounted root files u t' v k) h
    where
      go :
          (r : Result (ReceiveError F X) TransferResult × World Hash)
          → ((u : TransferResult) → r.0 ≡ ok u → Handled hashing json store env name file t u w r.1)
          → ((u : TransferResult) (v : World Hash)
              → u.files < 2 ^ 64
              → (export_files hashing json store env root files u v).0 ≡ ok t'
              → Accounted files u t' v (export_files hashing json store env root files u v).1)
          → (then_run (export_files hashing json store env root files) r).0 ≡ ok t'
          → Accounted
              ((name, file) ∷ files)
              t
              t'
              w
              (then_run (export_files hashing json store env root files) r).1
      go (err e, v) step rest k = absurd (err-ne-ok k)
      go (ok u, v) step rest k =
          one_more name file files t u t' w v _ (step u refl)
            (rest u v (small_after name file t u w v small (step u refl)) k)

  -- A run of the export loop that ends well splits the names of the collection, in their order,
  -- into those exported and those skipped: the result lists the skipped names and counts the
  -- exported ones modulo 2^64, an `Exporting` event was reported for exactly the exported names,
  -- the resume record, if there is one, remembers exactly these in addition, and none of them was
  -- remembered before.
  pub export_files_lem :
      (root : FilePath) (files : List (Text × Hash)) (t : TransferResult) (w : World Hash)
      → (export_files hashing json store env root files zero_result w).0 ≡ ok t
      → let w' = (export_files hashing json store env root files zero_result w).1 in
        (exported : List Text) × (newly : List Text) × Merged exported newly (names files)
        × (t.skipped ≡ newly)
        × (t.files ≡ length exported % 2 ^ 64)
        × (w'.progress ≡ w.progress ++ map exporting exported)
        × (remembered w'.resume [] ≡ remembered w.resume exported)
        × All (λ n. remembers n w.resume ≡ false) exported
  export_files_lem root files t w h =
      let a = loop_Accounted root files zero_result t w (omega arith) h in
      (
        a.exported,
        a.newly,
        a.merged,
        a.skipped,
        a.counted ∙ from_zero (length a.exported),
        a.reported,
        a.recorded,
        a.fresh,
      )
