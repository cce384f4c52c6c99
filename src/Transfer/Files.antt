-- ===== src/Transfer/Files.antt =====
-- The file operations of tokio::fs that the transfers use. A disk maps paths to contents; any
-- operation may fail, as its fault says, and a failed write may leave part of the content.
use worddrop.Base.{
  ◌≡◌, ◌↔◌, Bool, true, false, ◌&&◌, List, [], ◌∷◌, Option, none, some, Text, text_eq, text_eq_iff,
  Result, ok, err, arith,
}
use worddrop.Base.Table.{Table, Eq, lookup, insert, remove}
use worddrop.Protocol.Bytes.{Bytes}

-- `PathBuf`: its components.
abbrev pub FilePath : Type 0
FilePath = List Text

abbrev pub same_path : FilePath → FilePath → Bool
same_path [] [] = true
same_path (a ∷ p) (b ∷ q) = text_eq a b && same_path p q
same_path _ _ = false

pub same_path_iff : (p q : FilePath) → (same_path p q ≡ true) ↔ (p ≡ q)
same_path_iff [] [] = ground arith
same_path_iff (a ∷ p) [] = ground arith
same_path_iff [] (b ∷ q) = ground arith
same_path_iff (a ∷ p) (b ∷ q) = ground (arith, text_eq_iff a b, same_path_iff p q)

instance abbrev pub path_eq : Eq FilePath
path_eq = record { beq = same_path; beq_iff = same_path_iff }

abbrev pub Disk : Type 0
Disk = Table FilePath Bytes

-- `io::Error`: the kinds that the program looks at, and the rest.
pub data IoError (F : Type 0) : Type 0 where
  not_found already_exists invalid_data : IoError F
  other : F → IoError F

-- What goes wrong in one call, for each operation in it.
pub record Faults (F : Type 0) : Type 0 where
  pub create_dir : Option F
  pub open_tmp : Option F
  pub remove : Option F
  pub reopen : Option F
  pub write : Option F
  pub sync : Option F
  pub rename : Option F
  pub written : Bytes

abbrev pub Io {ℓ} : Type 0 → Type ℓ → Type ℓ
Io F A = Disk → Result (IoError F) A × Disk

module _ {F : Type 0} where
  abbrev pub fails {ℓ} : {A : Type ℓ} → Option F → Io F A → Io F A
  fails none run d = run d
  fails (some f) run d = (err (other f), d)

  abbrev pub continue {ℓ κ} :
      {A : Type ℓ} {B : Type κ}
      → (A → Io F B)
      → Result (IoError F) A × Disk
      → Result (IoError F) B × Disk
  continue f (ok a, d) = f a d
  continue f (err e, d) = (err e, d)

  abbrev pub nothing : Io F (Unit {0})
  nothing d = (ok tt, d)

  -- `OpenOptions::new().write(true).create_new(true).open(path)`
  abbrev pub created : FilePath → Option Bytes → Io F (Unit {0})
  created p none d = (ok tt, insert p [] d)
  created p (some c) d = (err already_exists, d)

  abbrev pub create_new : Option F → FilePath → Io F (Unit {0})
  create_new fault p = fails fault (λ d. created p (lookup p d) d)

  abbrev pub removed : FilePath → Option Bytes → Io F (Unit {0})
  removed p none d = (err not_found, d)
  removed p (some c) d = (ok tt, remove p d)

  -- `remove_file`
  abbrev pub remove_file : Option F → FilePath → Io F (Unit {0})
  remove_file fault p = fails fault (λ d. removed p (lookup p d) d)

  -- `write_all` on a file that is open at the path.
  abbrev pub write_all : Option F → Bytes → FilePath → Bytes → Io F (Unit {0})
  write_all none part p content d = (ok tt, insert p content d)
  write_all (some f) part p content d = (err (other f), insert p part d)

  abbrev pub renamed : FilePath → FilePath → Option Bytes → Io F (Unit {0})
  renamed p q none d = (err not_found, d)
  renamed p q (some c) d = (ok tt, insert q c (remove p d))

  -- `rename`
  abbrev pub rename_file : Option F → FilePath → FilePath → Io F (Unit {0})
  rename_file fault p q = fails fault (λ d. renamed p q (lookup p d) d)
