-- ===== src/Config.antt =====
-- The settings of the command line, crates/cli/src/config.rs. Paths are texts here.
pub mod Precedence
pub mod File
use worddrop.Base.{
  ℕ, Bool, true, false, List, [], ◌∷◌, Option, none, some, Text, codes, text_eq, is_empty, trim,
  Result, ok, err, if◌then◌else◌,
}

pub record ConfigFile : Type 0 where
  pub rendezvous_url : Option Text
  pub relay_url : Option Text
  pub data_dir : Option Text
  pub overwrite : Option Bool

-- `D` stands for the errors of the platform's configuration directory.
pub data ConfigError (D : Type 0) : Type 0 where
  no_config_dir : D → ConfigError D
  invalid_key : Text → ConfigError D
  invalid_value : Text → Text → ConfigError D

-- The keys that `set` and `field` match on.
pub data Key : Type 0 where
  rendezvous_url relay_url data_dir overwrite : Key

abbrev pub key_name : Key → Text
key_name rendezvous_url = codes "rendezvous_url"
key_name relay_url = codes "relay_url"
key_name data_dir = codes "data_dir"
key_name overwrite = codes "overwrite"

unfoldable pub key_of : Text → Option Key
key_of key =
    if text_eq key (codes "rendezvous_url")
    then some rendezvous_url
    else if text_eq key (codes "relay_url")
    then some relay_url
    else if text_eq key (codes "data_dir")
    then some data_dir
    else if text_eq key (codes "overwrite")
    then some overwrite
    else none

-- The raw values of the environment variables.
pub record Vars : Type 0 where
  pub data_dir : Option Text
  pub rendezvous_url : Option Text
  pub relay_url : Option Text

-- `Config`
pub record Config : Type 0 where
  pub data_dir : Text
  pub rendezvous_url : Text
  pub relay_url : Text
  pub overwrite : Bool

-- `identity::DEFAULT_RENDEZVOUS_URL` and `identity::DEFAULT_RELAY_URL`
pub record Defaults : Type 0 where
  pub rendezvous_url : Text
  pub relay_url : Text

-- `env_str` and `env_path`: an empty value counts as none.
abbrev pub env_str : Option Text → Option Text
env_str none = none
env_str (some value) = if is_empty value then none else some value

-- `or_else(..).unwrap_or(..)`
abbrev pub first_of : Option Text → Option Text → Text → Text
first_of (some v) file fallback = v
first_of none (some v) fallback = v
first_of none none fallback = fallback

abbrev pub or_false : Option Bool → Bool
or_false none = false
or_false (some b) = b

-- The fields that `Config::resolve` fills in.
unfoldable pub merge : Defaults → Vars → Text → ConfigFile → Config
merge defaults vars config_dir file = record {
  data_dir = first_of (env_str vars.data_dir) file.data_dir config_dir;
  rendezvous_url =
      first_of (env_str vars.rendezvous_url) file.rendezvous_url defaults.rendezvous_url;
  relay_url = first_of (env_str vars.relay_url) file.relay_url defaults.relay_url;
  overwrite = or_false file.overwrite;
}

abbrev pub show_bool : Bool → Text
show_bool true = codes "true"
show_bool false = codes "false"

module _ {D : Type 0} where
  -- `Config::resolve`
  abbrev pub resolve : Defaults → Vars → Result D Text → ConfigFile → Result (ConfigError D) Config
  resolve defaults vars (err e) file = err (no_config_dir e)
  resolve defaults vars (ok config_dir) file = ok (merge defaults vars config_dir file)

  abbrev pub field_of : Config → Text → Option Key → Result (ConfigError D) Text
  field_of c key none = err (invalid_key key)
  field_of c key (some rendezvous_url) = ok c.rendezvous_url
  field_of c key (some relay_url) = ok c.relay_url
  field_of c key (some data_dir) = ok c.data_dir
  field_of c key (some overwrite) = ok (show_bool c.overwrite)

  -- `Config::field`
  unfoldable pub field : Config → Text → Result (ConfigError D) Text
  field c key = field_of c key (key_of key)

  -- `non_empty`
  unfoldable pub non_empty : Text → Text → Result (ConfigError D) Text
  non_empty key value =
      let v = trim value in
      if is_empty v then err (invalid_value key (codes "value must not be empty")) else ok v

  unfoldable pub true_or_false : Text → Text → Result (ConfigError D) Text
  true_or_false key value =
      if text_eq (trim value) (codes "true")
      then ok (codes "true")
      else if text_eq (trim value) (codes "false")
      then ok (codes "false")
      else err (invalid_value key (codes "expected \"true\" or \"false\""))

  abbrev pub stored :
      (Text → ConfigFile)
      → ConfigFile
      → Result (ConfigError D) Text
      → Result (ConfigError D) Text × ConfigFile
  stored put file (err e) = (err e, file)
  stored put file (ok v) = (ok v, put v)

  abbrev pub set_known :
      ConfigFile → Text → Text → Option Key → Result (ConfigError D) Text × ConfigFile
  set_known file key value none = (err (invalid_key key), file)
  set_known file key value (some rendezvous_url) =
      stored (λ v. record file { rendezvous_url = some v }) file (non_empty key value)
  set_known file key value (some relay_url) =
      stored (λ v. record file { relay_url = some v }) file (non_empty key value)
  set_known file key value (some data_dir) =
      stored (λ v. record file { data_dir = some v }) file (non_empty key value)
  set_known file key value (some overwrite) =
      stored (λ v. record file { overwrite = some (text_eq v (codes "true")) }) file
        (true_or_false key value)

  -- `ConfigFile::set`
  unfoldable pub set : ConfigFile → Text → Text → Result (ConfigError D) Text × ConfigFile
  set file key value = set_known file key value (key_of key)
