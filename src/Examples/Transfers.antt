-- ===== src/Examples/Transfers.antt =====
-- Records, targets and receives on a small disk, with two hashes.
use worddrop.Base.{
  ℕ, zero, suc, ◌%◌, ◌^◌, ◌≡◌, ◌≢◌, ◌↔◌, refl, sym, ap, Bool, true, false, List, [], ◌∷◌, ◌++◌, map,
  length, none, some, Result, ok, err, ok_injective, err-ne-ok, Text, codes, split, join, All, all,
  Bool-cases, inl, inr, arith,
}
use worddrop.Base.Table.{lookup, insert, lookup-insert}
use worddrop.Protocol.Bytes.{Bytes}
use worddrop.Protocol.Wire.{Json}
use worddrop.Transfer.Files.{FilePath, Disk, path_eq, same_path, same_path_iff, Faults}
use worddrop.Transfer.Record
use worddrop.Transfer.Record.{
  Hashing, is_hex, TransferStatus, in_progress, done, TransferRecord, RecordStore, new_store, path,
  load, write_tmp, save, delete,
}
use worddrop.Transfer.Record.Atomic.{settled}
use worddrop.Transfer.Record.Atomic.Saves.{save_lem}
use worddrop.Transfer.Target.{slash, IsSafe, export_target, push_parts, export_target_iff}
use worddrop.Transfer.Receive.{download_items, export_file, export_files, receive_impl}
use worddrop.Transfer.Progress.{
  TransferResult, World, Env, connection, size, export_done, exporting, offset, get_done,
  zero_result, drain,
}
use worddrop.Transfer.Receive.Accounts.{Merged, remembered, remembers}
use worddrop.Transfer.Receive.Downloads.{InBounds, download_items-InBounds}
use worddrop.Transfer.Receive.Exports.{export_files_lem}
use worddrop.Transfer.Receive.Keeping.{receive_impl-Holds}

abbrev same : Bool → Bool → Bool
same true true = true
same false false = true
same _ _ = false

pub same_iff : (a b : Bool) → (same a b ≡ true) ↔ (a ≡ b)
same_iff a b = ground arith

abbrev digit : Bool → ℕ
digit true = b'1'
digit false = b'0'

abbrev repeat : ℕ → ℕ → Text
repeat zero c = []
repeat (suc n) c = c ∷ repeat n c

abbrev hex : Bool → Text
hex h = repeat 64 (digit h)

pub hex_digits : (h : Bool) → all is_hex (hex h) ≡ true
hex_digits true = refl
hex_digits false = refl

pub length-hex : (h : Bool) → length (hex h) ≡ 64
length-hex h = refl

abbrev first_code : Text → ℕ
first_code [] = 0
first_code (c ∷ s) = c

pub hex_injective : (h k : Bool) → hex h ≡ hex k → h ≡ k
hex_injective true true e = refl
hex_injective false false e = refl
hex_injective true false e = let clash : ◌≡◌ {A = ℕ} 49 48 = ap first_code e in absurd (omega arith)
hex_injective false true e = let clash : ◌≡◌ {A = ℕ} 48 49 = ap first_code e in absurd (omega arith)

abbrev pub hashing : Hashing Bool
hashing = record {
  eq = record { beq = same; beq_iff = same_iff };
  to_hex = hex;
  to_hex_digits = hex_digits;
  to_hex_length = length-hex;
  to_hex_injective = hex_injective;
}

-- Records without exported files are written as their numbers.
abbrev bit : Bool → ℕ
bit true = 1
bit false = 0

abbrev of_bit : ℕ → Bool
of_bit zero = false
of_bit (suc n) = true

abbrev status_bit : TransferStatus → ℕ
status_bit in_progress = 0
status_bit done = 1

abbrev of_status_bit : ℕ → TransferStatus
of_status_bit zero = in_progress
of_status_bit (suc n) = done

abbrev numbers : TransferRecord Bool → List Text → Result Text Bytes
numbers r [] =
    ok
      (bit r.collection_hash ∷ r.bytes_received ∷ status_bit r.status ∷ r.updated_at ∷ r.target_dir)
numbers r (n ∷ ns) = err n

abbrev to_vec : TransferRecord Bool → Result Text Bytes
to_vec r = numbers r r.exported_files

abbrev from_slice : Bytes → Result Text (TransferRecord Bool)
from_slice (h ∷ b ∷ s ∷ u ∷ t) = ok (record {
  collection_hash = of_bit h;
  target_dir = t;
  bytes_received = b;
  status = of_status_bit s;
  exported_files = [];
  updated_at = u;
})
from_slice _ = err []

of_bit-bit : (b : Bool) → of_bit (bit b) ≡ b
of_bit-bit true = refl
of_bit-bit false = refl

of_status_bit-status_bit : (s : TransferStatus) → of_status_bit (status_bit s) ≡ s
of_status_bit-status_bit in_progress = refl
of_status_bit-status_bit done = refl

pub round_trip :
    (r : TransferRecord Bool) (body : Bytes) → to_vec r ≡ ok body → from_slice body ≡ ok r
round_trip r body h = go r.exported_files refl h
  where
    go : (es : List Text) → r.exported_files ≡ es → numbers r es ≡ ok body → from_slice body ≡ ok r
    go (n ∷ ns) e k = absurd (err-ne-ok k)
    go [] e k = rw (← ok_injective k) (
        ap ok (λ i. record {
          collection_hash = of_bit-bit r.collection_hash i;
          target_dir = r.target_dir;
          bytes_received = r.bytes_received;
          status = of_status_bit-status_bit r.status i;
          exported_files = sym e i;
          updated_at = r.updated_at;
        }))

abbrev pub json : Json Text (TransferRecord Bool)
json = record { to_vec = to_vec; from_slice = from_slice; round_trip = round_trip }

abbrev pub store : RecordStore
store = new_store (codes "data" ∷ [])

abbrev no_faults : Faults Text
no_faults = record {
  create_dir = none;
  open_tmp = none;
  remove = none;
  reopen = none;
  write = none;
  sync = none;
  rename = none;
  written = [];
}

-- The rename fails.
abbrev broken : Faults Text
broken = record no_faults { rename = some [] }

abbrev kept_record : TransferRecord Bool
kept_record = Record.new hashing true (codes "out") 9

abbrev pub disk : Disk
disk = (codes "out" ∷ codes "a" ∷ [], 7 ∷ []) ∷ []

save_lem_example :
    lookup (path hashing store true) (save hashing json broken store 4 0 kept_record disk).1
    ≡ settled
        (save hashing json broken store 4 0 kept_record disk).0
        (same true true)
        (to_vec kept_record)
        (lookup (path hashing store true) disk)
save_lem_example = save_lem hashing store json broken 4 0 kept_record true disk

abbrev root : FilePath
root = codes "out" ∷ []

abbrev below : FilePath
below = codes "out" ∷ codes "a" ∷ codes "b" ∷ []

export_target_iff_example : (export_target root (codes "a/b") ≡ ok below) ↔ (
    (parts : List Text) × (parts ≡ split slash (codes "a/b"))
    × (join slash parts ≡ codes "a/b")
    × All IsSafe parts
    × (below ≡ root ++ parts))
export_target_iff_example = export_target_iff root below (codes "a/b")

abbrev files : List (Text × Bool)
files = (codes "a", true) ∷ (codes "b", false) ∷ []

abbrev pub env : Env Bool Text Text
env = record {
  absolute = ok root;
  overwrite = false;
  local = ok (true, 0);
  connected = connection;
  blob_sizes = ok [];
  get_items = [];
  collection = ok files;
  complete_size = λ h. some 3;
  export_items = λ h. size 5 ∷ export_done ∷ [];
  export_to = λ h target d. insert target (5 ∷ []) d;
  remove_fault = λ p. none;
  faults = λ n. no_faults;
  time = λ n. n;
  pid = 4;
}

abbrev pub world : World Bool
world = record { disk = disk; progress = []; resume = none; saves = 0 }

abbrev exported_one : TransferResult
exported_one = record { bytes = 5; files = 1; skipped_bytes = 3; skipped = codes "a" ∷ [] }

exported_lem :
    (export_files hashing json store env root files zero_result world).0 ≡ ok exported_one
unfolding export_files export_file export_target push_parts lookup drain
exported_lem = refl

export_files_lem_example :
    (exported : List Text) × (newly : List Text) × Merged exported newly
      (codes "a" ∷ codes "b" ∷ [])
    × (codes "a" ∷ [] ≡ newly)
    × (1 ≡ length exported % 2 ^ 64)
    × ((export_files hashing json store env root files zero_result world).1.progress
        ≡ map exporting exported)
    × (remembered (export_files hashing json store env root files zero_result world).1.resume []
        ≡ none)
    × All (λ n. remembers {Hash = Bool} n none ≡ false) exported
export_files_lem_example =
    export_files_lem hashing json store env root files exported_one world exported_lem

outside_lem : (name : Text) → codes "out" ∷ codes "a" ∷ [] ≢ store.dir ++ name ∷ []
outside_lem name e = cc e

elsewhere_lem :
    (file : Bool) (target q : FilePath) (d : Disk)
    → target ≢ q
    → lookup q (env.export_to file target d) ≡ lookup q d
elsewhere_lem file target q d h = elim (Bool-cases (same_path target q)) [
  | inl e ↦ absurd (h ((same_path_iff target q).0 e))
  | inr e ↦ rw (lookup-insert target q (5 ∷ []) d, e)
]

a_lem : lookup (codes "out" ∷ codes "a" ∷ []) disk ≡ some (7 ∷ [])
unfolding lookup
a_lem = refl

receive_impl-Holds_example :
    lookup (codes "out" ∷ codes "a" ∷ []) (receive_impl hashing json store env none world).1.disk
    ≡ some (7 ∷ [])
receive_impl-Holds_example =
    receive_impl-Holds hashing json store env (codes "out" ∷ codes "a" ∷ []) (7 ∷ []) outside_lem
      refl elsewhere_lem none world a_lem

-- A download of which the endpoint reports more than the three bytes that there are.
abbrev downloading : Env Bool Text Text
downloading = record env { get_items = offset 2 ∷ offset 7 ∷ get_done ∷ [] }

download_items-InBounds_example :
    InBounds 3
      (download_items hashing json store downloading downloading.get_items 3 0
        (record world { resume = some kept_record })).1
download_items-InBounds_example =
    download_items-InBounds hashing json store downloading downloading.get_items 3 0
      (record world { resume = some kept_record }) (tt, omega arith)
