-- ===== src/Examples/Settings.antt =====
-- A setting under an environment.
use worddrop.Base.{
  ℕ, zero, suc, ◌≡◌, refl, sym, ap, Bool, true, false, [], ◌∷◌, Option, none, some, Result, ok, err,
  ok_injective, err-ne-ok, Text, codes, text_eq, if◌then◌else◌,
}
use worddrop.Protocol.Bytes.{Bytes}
use worddrop.Protocol.Wire.{Json}
use worddrop.Transfer.Files.{Disk, Faults}
use worddrop.Config.File.{load_from, save_to}
use worddrop.Config.File.Saved.{after, load_from-save_to}
use worddrop.Config.{ConfigFile, Defaults, Vars, merge, key_of, set, field, non_empty, first_of}
use worddrop.Config.Precedence.{env_of, field-set}

abbrev defaults : Defaults
defaults = record {
  rendezvous_url = codes "https://one.example";
  relay_url = codes "https://two.example";
}

-- The relay is set by the environment, the server to nothing.
abbrev vars : Vars
vars = record {
  data_dir = none;
  rendezvous_url = some [];
  relay_url = some (codes "https://env.example");
}

abbrev file : ConfigFile
file = record { rendezvous_url = none; relay_url = none; data_dir = none; overwrite = some true }

abbrev changed : ConfigFile
changed = record file { rendezvous_url = some (codes "https://new.example") }

set_lem :
    set {D = Text} file (codes "rendezvous_url") (codes " https://new.example ")
    ≡ (ok (codes "https://new.example"), changed)
unfolding set key_of non_empty
set_lem = refl

field-set_example :
    field {D = Text} (merge defaults vars (codes "/config") changed) (codes "relay_url") ≡ (
      if text_eq (codes "rendezvous_url") (codes "relay_url")
      then ok (
          first_of
            (env_of vars (codes "relay_url"))
            (some (codes "https://new.example"))
            (codes "https://new.example"))
      else field (merge defaults vars (codes "/config") file) (codes "relay_url"))
field-set_example =
    field-set defaults vars (codes "/config") file changed (codes "rendezvous_url")
      (codes " https://new.example ") (codes "https://new.example") (codes "relay_url") set_lem

-- Settings without texts are written as one byte.
abbrev flag : Option Bool → ℕ
flag none = 0
flag (some false) = 1
flag (some true) = 2

abbrev of_flag : ℕ → Option Bool
of_flag zero = none
of_flag (suc zero) = some false
of_flag (suc (suc n)) = some true

of_flag-flag : (o : Option Bool) → of_flag (flag o) ≡ o
of_flag-flag none = refl
of_flag-flag (some false) = refl
of_flag-flag (some true) = refl

abbrev byte_of : Option Text → Option Text → Option Text → Option Bool → Result Text Bytes
byte_of none none none o = ok (flag o ∷ [])
byte_of _ _ _ o = err []

abbrev to_vec : ConfigFile → Result Text Bytes
to_vec c = byte_of c.rendezvous_url c.relay_url c.data_dir c.overwrite

abbrev flagged : Option Bool → ConfigFile
flagged o = record { rendezvous_url = none; relay_url = none; data_dir = none; overwrite = o }

abbrev from_slice : Bytes → Result Text ConfigFile
from_slice (n ∷ []) = ok (flagged (of_flag n))
from_slice _ = err []

round_trip : (c : ConfigFile) (body : Bytes) → to_vec c ≡ ok body → from_slice body ≡ ok c
round_trip c body h = go c.rendezvous_url c.relay_url c.data_dir refl refl refl h
  where
    go :
        (u v w : Option Text)
        → c.rendezvous_url ≡ u
        → c.relay_url ≡ v
        → c.data_dir ≡ w
        → byte_of u v w c.overwrite ≡ ok body
        → from_slice body ≡ ok c
    go none none none p q r k = rw (← ok_injective k) (
        ap ok (λ i. record {
          rendezvous_url = sym p i;
          relay_url = sym q i;
          data_dir = sym r i;
          overwrite = of_flag-flag c.overwrite i;
        }))
    go (some u) v w p q r k = absurd (err-ne-ok k)
    go none (some v) w p q r k = absurd (err-ne-ok k)
    go none none (some w) p q r k = absurd (err-ne-ok k)

abbrev toml : Json Text ConfigFile
toml = record { to_vec = to_vec; from_slice = from_slice; round_trip = round_trip }

-- The rename fails.
abbrev broken : Faults Text
broken = record {
  create_dir = none;
  open_tmp = none;
  remove = none;
  reopen = none;
  write = none;
  sync = none;
  rename = some [];
  written = [];
}

abbrev disk : Disk
disk = (codes "worddrop" ∷ codes "config.toml" ∷ [], 1 ∷ []) ∷ []

load_from-save_to_example :
    load_from toml none
      (codes "worddrop" ∷ codes "config.toml" ∷ [])
      (save_to toml broken (codes "worddrop" ∷ []) (codes "config.toml") 4 file disk).1
    ≡ after toml
        (save_to toml broken (codes "worddrop" ∷ []) (codes "config.toml") 4 file disk).0
        file
        (load_from toml none (codes "worddrop" ∷ codes "config.toml" ∷ []) disk)
load_from-save_to_example =
    load_from-save_to toml broken (codes "worddrop" ∷ []) (codes "config.toml") 4 file disk
