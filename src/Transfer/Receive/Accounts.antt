-- ===== src/Transfer/Receive/Accounts.antt =====
-- One round of the export loop of crates/core/src/transfer/receive/core.rs.
use worddrop.Base.{
  ℕ, ◌≡◌, ◌⊎◌, inl, inr, refl, sym, ap, append_assoc, append_nil, any, any-append, ◌||◌, text_eq,
  ◌∙◌, Bool, true, false, not, List, [], ◌∷◌, ◌++◌, map, Option, none, some, Text, Result, ok, err,
  ok_injective, err-ne-ok, Bool-cases, if◌then◌else◌, arith,
}
use mathlib.Core.Path.{subst}
use worddrop.Base.Table.{lookup}
use worddrop.Protocol.Bytes.{Bytes}
use worddrop.Protocol.Wire.{Json}
use worddrop.Transfer.Files.{FilePath, Disk, path_eq, IoError, remove_file}
use worddrop.Transfer.Record.{Hashing, TransferRecord, RecordStore}
use worddrop.Transfer.Target.{InvalidName, export_target}
use worddrop.Transfer.Receive.{
  then_run, saved, counted, save_record, is_exported, skip, record_export, drained, replaced,
  at_target, with_target, export_file,
}
use worddrop.Transfer.Progress.{exporting, TransferResult, World, Env, add64, drain}

-- The third list is the first two merged, each in its order.
pub data Merged {ℓ} {A : Type ℓ} : List A → List A → List A → Type ℓ where
  empty : Merged [] [] []
  first : {x : A} {xs ys zs : List A} → Merged xs ys zs → Merged (x ∷ xs) ys (x ∷ zs)
  second : {y : A} {xs ys zs : List A} → Merged xs ys zs → Merged xs (y ∷ ys) (y ∷ zs)

abbrev pub names : {Hash : Type 0} → List (Text × Hash) → List Text
names = map (λ f. f.0)

-- The files that the record remembers, and then some more.
abbrev pub remembered :
    {Hash : Type 0} → Option (TransferRecord Hash) → List Text → Option (List Text)
remembered none more = none
remembered (some r) more = some (r.exported_files ++ more)

-- What the record remembers, and what it would remember with a name more.
pub remembered_more :
    {Hash : Type 0} (o q : Option (TransferRecord Hash)) (xs ys : List Text)
    → remembered q [] ≡ remembered o xs
    → remembered q ys ≡ remembered o (xs ++ ys)
remembered_more none none xs ys h = refl
remembered_more none (some r) xs ys h = absurd (cc h)
remembered_more (some r) none xs ys h = absurd (cc h)
remembered_more (some r) (some s) xs ys h =
    let same : s.exported_files ≡ r.exported_files ++ xs =
      sym (append_nil s.exported_files) ∙ ground arith in
    rw (same, append_assoc r.exported_files xs ys)

-- A name that is not remembered after a name more was not remembered before.
abbrev pub remembers : {Hash : Type 0} → Text → Option (TransferRecord Hash) → Bool
remembers name none = false
remembers name (some r) = any (λ f. text_eq f name) r.exported_files

pub remembers_more :
    {Hash : Type 0} (name : Text) (o q : Option (TransferRecord Hash)) (xs : List Text)
    → remembered q [] ≡ remembered o xs
    → remembers name q ≡ false
    → remembers name o ≡ false
remembers_more name none q xs h k = refl
remembers_more name (some r) none xs h k = absurd (cc h)
remembers_more name (some r) (some s) xs h k =
    let same : s.exported_files ≡ r.exported_files ++ xs =
      sym (append_nil s.exported_files) ∙ ground arith in
    let either : (any (λ f. text_eq f name) r.exported_files || any (λ f. text_eq f name) xs)
        ≡ false =
      sym (any-append (λ f. text_eq f name) r.exported_files xs) ∙ rw same at k in
    ground arith

module _ {Hash E F X : Type 0} (hashing : Hashing Hash) (json : Json E (TransferRecord Hash))
    (store : RecordStore) (env : Env Hash F X) where
  -- A file that was written: counted, reported, and remembered by the record, if there is one.
  pub record Written (name : Text) (t t' : TransferResult) (w w' : World Hash) : Type 0 where
    pub skipped : t'.skipped ≡ t.skipped
    pub files : t'.files ≡ add64 t.files 1
    pub reported : w'.progress ≡ w.progress ++ exporting name ∷ []
    pub recorded : remembered w'.resume [] ≡ remembered w.resume (name ∷ [])

  abbrev pub Outcome :
      Text → Hash → TransferResult → TransferResult → World Hash → World Hash → Type 0
  Outcome name h t t' w w' =
      ((t'.skipped ≡ t.skipped ++ name ∷ []) × (t'.files ≡ t.files) × (w' ≡ w))
      ⊎ Written name t t' w w'

  saved-Written :
      (name : Text) (t t' : TransferResult) (n : ℕ) (r : TransferRecord Hash) (v w : World Hash)
      (time : ℕ) (res : Result (IoError F) (Unit {0})) (d : Disk)
      → w.progress ≡ v.progress ++ exporting name ∷ []
      → v.resume ≡ some r
      → let r' = record r { exported_files = r.exported_files ++ name ∷ []; updated_at = time } in
        let a = then_run {X = X} (counted t n) (saved r' w (res, d)) in
        a.0 ≡ ok t' → Written name t t' v a.1
  saved-Written name t t' n r v w time (err e) d p q h = absurd (err-ne-ok h)
  saved-Written name t t' n r v w time (ok u) d p q h = record {
    skipped = sym (ap (λ (x : TransferResult). x.skipped) (ok_injective h));
    files = sym (ap (λ (x : TransferResult). x.files) (ok_injective h));
    reported = p;
    recorded =
        ap some (append_nil (r.exported_files ++ name ∷ []))
        ∙ sym (ap (λ o. remembered o (name ∷ [])) q);
  }

  record_export-Written :
      (name : Text) (t t' : TransferResult) (n : ℕ) (o : Option (TransferRecord Hash))
      (v w : World Hash)
      → w.progress ≡ v.progress ++ exporting name ∷ []
      → v.resume ≡ o
      → w.resume ≡ o
      → let a = then_run (counted t n) (record_export hashing json store env name o w) in
        a.0 ≡ ok t' → Written name t t' v a.1
  unfolding save_record
  record_export-Written name t t' n none v w p q u h = record {
    skipped = sym (ap (λ (x : TransferResult). x.skipped) (ok_injective h));
    files = sym (ap (λ (x : TransferResult). x.files) (ok_injective h));
    reported = p;
    recorded = ap (λ o. remembered o []) u ∙ sym (ap (λ o. remembered o (name ∷ [])) q);
  }
  record_export-Written name t t' n (some r) v w p q u h =
      saved-Written name t t' n r v w (env.time w.saves) _ _ p q h

  drained_lem :
      (name : Text) (t t' : TransferResult) (res : Result X (ℕ × Bool)) (v w : World Hash)
      → w.progress ≡ v.progress ++ exporting name ∷ []
      → w.resume ≡ v.resume
      → (drained hashing json store env name t res w).0 ≡ ok t'
      → Written name t t' v (drained hashing json store env name t res w).1
  drained_lem name t t' (err x) v w p q h = absurd (err-ne-ok h)
  drained_lem name t t' (ok (n, false)) v w p q h = absurd (err-ne-ok h)
  drained_lem name t t' (ok (n, true)) v w p q h =
      record_export-Written name t t' n w.resume v w p (sym q) refl h

  replaced_lem :
      (name : Text) (file : Hash) (target : FilePath) (t t' : TransferResult) (w : World Hash)
      (r : Result (IoError F) (Unit {0}) × Disk)
      → (replaced hashing json store env name file target t w r).0 ≡ ok t'
      → Written name t t' w (replaced hashing json store env name file target t w r).1
  replaced_lem name file target t t' w (err e, d) h = absurd (err-ne-ok h)
  replaced_lem name file target t t' w (ok u, d) h =
      drained_lem name t t' (drain (env.export_items file) 0 false) w _ refl refl h

  at_target_lem :
      (name : Text) (file : Hash) (target : FilePath) (t t' : TransferResult) (o : Option Bytes)
      (w : World Hash)
      → (at_target hashing json store env name file target t o w).0 ≡ ok t'
      → Outcome name file t t' w (at_target hashing json store env name file target t o w).1
  at_target_lem name file target t t' none w h =
      inr (drained_lem name t t' (drain (env.export_items file) 0 false) w _ refl refl h)
  at_target_lem name file target t t' (some c) w h = elim (Bool-cases (not env.overwrite)) [
    | inl q ↦
        let same : skip hashing json store env name file t ≡ t' = ok_injective (rw q at h) in
        rw q (inl (rw (← same), rw (← same), refl))
    | inr q ↦ rw q (
        inr (
          replaced_lem name file target t t' w (remove_file (env.remove_fault target) target w.disk)
            (rw q at h)))
  ]

  -- As `Outcome`, and what was written is a file that the record did not remember.
  abbrev pub Handled :
      Text → Hash → TransferResult → TransferResult → World Hash → World Hash → Type 0
  Handled name h t t' w w' =
      ((t'.skipped ≡ t.skipped ++ name ∷ []) × (t'.files ≡ t.files) × (w' ≡ w))
      ⊎ ((is_exported hashing json store env name w.resume ≡ false) × Written name t t' w w')

  handled :
      (name : Text) (file : Hash) (t t' : TransferResult) (w w' : World Hash)
      → is_exported hashing json store env name w.resume ≡ false
      → Outcome name file t t' w w'
      → Handled name file t t' w w'
  handled name file t t' w w' fresh (inl o) = inl o
  handled name file t t' w w' fresh (inr o) = inr (fresh, o)

  pub export_file_lem :
      (root : FilePath) (name : Text) (file : Hash) (t t' : TransferResult) (w : World Hash)
      → (export_file hashing json store env root name file t w).0 ≡ ok t'
      → Handled name file t t' w (export_file hashing json store env root name file t w).1
  unfolding export_file
  export_file_lem root name file t t' w h =
      elim (Bool-cases (is_exported hashing json store env name w.resume)) [
        | inl q ↦
            let same : skip hashing json store env name file t ≡ t' = ok_injective (rw q at h) in
            rw q (inl (rw (← same), rw (← same), refl))
        | inr q ↦
            subst
              (λ b.
                Handled name file t t' w
                  (if b
                    then (ok (skip hashing json store env name file t), w)
                    else with_target hashing json store env name file t (export_target root name)
                        w).1)
              (sym q) (handled name file t t' w _ q (named (export_target root name) (rw q at h)))
      ]
    where
      named :
          (r : Result InvalidName FilePath)
          → (with_target hashing json store env name file t r w).0 ≡ ok t'
          → Outcome name file t t' w (with_target hashing json store env name file t r w).1
      named (err e) k = absurd (err-ne-ok k)
      named (ok target) k = at_target_lem name file target t t' (lookup target w.disk) w k
