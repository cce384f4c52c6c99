-- ===== src/Config/File.antt =====
-- The file of the settings, `load_from` and `save_to` of crates/cli/src/config.rs. The TOML library
-- is a parameter, with its round trip as the law; the disk is that of the transfers.
pub mod Saved
use worddrop.Base.{
  ℕ, Option, none, some, List, [], ◌∷◌, ◌++◌, Text, codes, Result, ok, err, map_err,
}
use worddrop.Base.Decimal.{to_string}
use worddrop.Base.Table.{lookup}
use worddrop.Protocol.Bytes.{Bytes}
use worddrop.Protocol.Wire.{Json}
use worddrop.Transfer.Files.{
  FilePath, Disk, path_eq, IoError, other, Faults, Io, fails, continue, write_all, rename_file,
}
use worddrop.Config.{ConfigFile}

-- The errors of `ConfigError` that loading and saving give.
pub data FileError (E F : Type 0) : Type 0 where
  read write : IoError F → FileError E F
  parse encode : E → FileError E F

-- `ConfigFile::default`
abbrev pub default : ConfigFile
default = record { rendezvous_url = none; relay_url = none; data_dir = none; overwrite = none }

abbrev pub config_path : FilePath → Text → FilePath
config_path dir name = dir ++ name ∷ []

-- The process id and the extension.
abbrev pub suffix : ℕ → Text
suffix pid = b'.' ∷ (to_string pid ++ codes ".tmp")

abbrev pub tmp_name : Text → ℕ → Text
tmp_name name pid = b'.' ∷ (name ++ suffix pid)

module _ {E F : Type 0} (toml : Json E ConfigFile) where
  abbrev pub loaded : Option Bytes → Result (FileError E F) ConfigFile
  loaded none = ok default
  loaded (some content) = map_err parse (toml.from_slice content)

  -- `ConfigFile::load_from`; the fault is a file that cannot be read. A content that is not UTF-8 is
  -- left to the parser.
  unfoldable pub load_from : Option F → FilePath → Disk → Result (FileError E F) ConfigFile
  load_from none path d = loaded (lookup path d)
  load_from (some f) path d = err (read (other f))

  abbrev pub write_errors :
      Result (IoError F) (Unit {0}) × Disk → Result (FileError E F) (Unit {0}) × Disk
  write_errors (r, d) = (map_err write r, d)

  abbrev pub replace_content : Faults F → FilePath → FilePath → Bytes → Io F (Unit {0})
  replace_content f tmp path content = fails f.create_dir (λ d.
      continue (λ _. rename_file f.rename tmp path) (write_all f.write f.written tmp content d))

  abbrev pub save_text :
      Faults F
      → FilePath
      → FilePath
      → Result E Bytes
      → Disk
      → Result (FileError E F) (Unit {0}) × Disk
  save_text f tmp path (err e) d = (err (encode e), d)
  save_text f tmp path (ok content) d = write_errors (replace_content f tmp path content d)

  -- `ConfigFile::save_to`, for a file of this name in this directory.
  unfoldable pub save_to :
      Faults F → FilePath → Text → ℕ → ConfigFile → Disk → Result (FileError E F) (Unit {0}) × Disk
  save_to f dir name pid file =
      save_text f (config_path dir (tmp_name name pid)) (config_path dir name) (toml.to_vec file)
