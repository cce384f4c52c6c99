-- ===== src/Config/File/Saved.antt =====
-- The settings that are loaded after `save_to` of crates/cli/src/config.rs.
use worddrop.Base.{
  ℕ, suc, ◌+◌, ◌≡◌, ◌≢◌, refl, sym, ap, ◌∙◌, false, Option, none, some, ◌∷◌, ◌++◌, length,
  length-append, Text, Result, ok, err, map_err, Bool-cases, inl, inr, arith,
}
use worddrop.Base.Table.{lookup, insert, remove, lookup-insert, lookup-insert_self}
use worddrop.Protocol.Bytes.{Bytes}
use worddrop.Protocol.Wire.{Json}
use worddrop.Transfer.Files.{
  FilePath, Disk, path_eq, same_path, same_path_iff, IoError, Faults, fails, continue, write_all,
  rename_file,
}
use worddrop.Transfer.Record.Atomic.Saves.{append_injective}
use worddrop.Config.{ConfigFile}
use worddrop.Config.File.{
  FileError, write, config_path, tmp_name, suffix, loaded, load_from, save_text, save_to,
}

longer : (name rest : Text) → b'.' ∷ (name ++ rest) ≢ name
longer name rest e =
    let sizes : suc (length name + length rest) ≡ length name =
      ap suc (sym (length-append name rest)) ∙ ap length e in
    absurd (omega arith)

apart :
    (dir : FilePath) (name : Text) (pid : ℕ)
    → same_path (config_path dir (tmp_name name pid)) (config_path dir name) ≡ false
apart dir name pid =
    elim (Bool-cases (same_path (config_path dir (tmp_name name pid)) (config_path dir name))) [
      | inl q ↦ absurd (
          longer name (suffix pid)
            (append_injective dir (tmp_name name pid) name ((same_path_iff _ _).0 q)))
      | inr q ↦ q
    ]

-- The content at a path after a replacement of it that ended so.
abbrev kept_or : {F : Type 0} → Result (IoError F) (Unit {0}) → Bytes → Option Bytes → Option Bytes
kept_or (ok u) content old = some content
kept_or (err e) content old = old

module _ {F : Type 0} (tmp path : FilePath) (differ : same_path tmp path ≡ false) (d : Disk) where
  replaced_at :
      (create writing rename : Option F) (part content : Bytes)
      → let s =
          fails create
            (λ d.
              continue (λ _. rename_file rename tmp path) (write_all writing part tmp content d))
            d in
        lookup path s.1 ≡ kept_or s.0 content (lookup path d)
  replaced_at (some e) writing rename part content = refl
  replaced_at none (some e) rename part content = rw (lookup-insert tmp path part d, differ)
  replaced_at none none (some e) part content = rw (lookup-insert tmp path content d, differ)
  replaced_at none none none part content = rw (
    lookup-insert_self tmp content d,
    lookup-insert_self path content (remove tmp (insert tmp content d)),
  )

module _ {E F : Type 0} (toml : Json E ConfigFile) where
  -- What is loaded after a save: the settings that were saved, or those of before.
  abbrev pub after :
      Result (FileError E F) (Unit {0})
      → ConfigFile
      → Result (FileError E F) ConfigFile
      → Result (FileError E F) ConfigFile
  after (ok u) file old = ok file
  after (err e) file old = old

  replaced_after :
      (file : ConfigFile) (content : Bytes) (r : Result (IoError F) (Unit {0})) (old : Option Bytes)
      → toml.to_vec file ≡ ok content
      → loaded {F = F} toml (kept_or r content old) ≡ after (map_err write r) file (loaded toml old)
  replaced_after file content (ok u) old made = rw (toml.round_trip file content made)
  replaced_after file content (err e) old made = refl

  -- After `save_to`, however it ends, `load_from` gives the settings that were saved if the save
  -- succeeded, and what it gave before otherwise.
  pub load_from-save_to :
      (f : Faults F) (dir : FilePath) (name : Text) (pid : ℕ) (file : ConfigFile) (d : Disk)
      → let s = save_to toml f dir name pid file d in
        load_from toml none (config_path dir name) s.1
        ≡ after s.0 file (load_from toml none (config_path dir name) d)
  unfolding load_from save_to
  load_from-save_to f dir name pid file d = cases (toml.to_vec file) refl
    where
      cases :
          (r : Result E Bytes)
          → toml.to_vec file ≡ r
          → let s =
              save_text toml f (config_path dir (tmp_name name pid)) (config_path dir name) r d in
            loaded {F = F} toml (lookup (config_path dir name) s.1)
            ≡ after s.0 file (loaded toml (lookup (config_path dir name) d))
      cases (err e) q = refl
      cases (ok content) q =
          ap (loaded toml) (
            replaced_at (config_path dir (tmp_name name pid)) (config_path dir name)
              (apart dir name pid) d f.create_dir f.write f.rename f.written content)
          ∙ replaced_after file content _ (lookup (config_path dir name) d) q
