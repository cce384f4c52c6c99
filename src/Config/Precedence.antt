-- ===== src/Config/Precedence.antt =====
-- A setting of crates/cli/src/config.rs after `set`, under the environment.
use worddrop.Base.{
  ◌≡◌, inl, inr, refl, sym, ap, ◌∙◌, false, Option, none, some, Text, codes, text_eq, text_eq_iff,
  text_ne, trim, Result, ok, err, ok_injective, err-ne-ok, Bool-cases, if◌then◌else◌, arith,
}
use mathlib.Core.Path.{subst}
use worddrop.Config.{
  ConfigFile, ConfigError, Key, rendezvous_url, relay_url, data_dir, overwrite, key_name, key_of,
  Vars, Defaults, env_str, first_of, merge, show_bool, field, field_of, true_or_false, stored, set,
  set_known,
}

key_of-key_name : (k : Key) → key_of (key_name k) ≡ some k
unfolding key_of
key_of-key_name rendezvous_url = refl
key_of-key_name relay_url = refl
key_of-key_name data_dir = refl
key_of-key_name overwrite = refl

key_of_inv : (t : Text) (k : Key) → key_of t ≡ some k → t ≡ key_name k
unfolding key_of
key_of_inv t k h = ground (
  arith,
  text_eq_iff t (codes "rendezvous_url"),
  text_eq_iff t (codes "relay_url"),
  text_eq_iff t (codes "data_dir"),
  text_eq_iff t (codes "overwrite"),
)

-- What the environment says of a key.
abbrev pub var_of : Vars → Key → Option Text
var_of vars rendezvous_url = env_str vars.rendezvous_url
var_of vars relay_url = env_str vars.relay_url
var_of vars data_dir = env_str vars.data_dir
var_of vars overwrite = none

-- The variable of a key by its name, if it has one.
abbrev var_of_known : Vars → Option Key → Option Text
var_of_known vars none = none
var_of_known vars (some k) = var_of vars k

abbrev pub env_of : Vars → Text → Option Text
env_of vars key = var_of_known vars (key_of key)

-- The file with a value put in.
abbrev put_of : Key → Text → ConfigFile → ConfigFile
put_of rendezvous_url v file = record file { rendezvous_url = some v }
put_of relay_url v file = record file { relay_url = some v }
put_of data_dir v file = record file { data_dir = some v }
put_of overwrite v file = record file { overwrite = some (text_eq v (codes "true")) }

-- The value of the flag is one that it shows.
abbrev Shows : Key → Text → Type 0
Shows overwrite v = show_bool (text_eq v (codes "true")) ≡ v
Shows _ v = Unit

first_some : (o : Option Text) (v f g : Text) → first_of o (some v) f ≡ first_of o (some v) g
first_some none v f g = refl
first_some (some x) v f g = refl

keys_differ :
    (key j : Text) (k : Key) → key_of key ≡ some k → key_of j ≡ none → text_eq key j ≡ false
keys_differ key j k a b =
    text_ne key j (λ same. let clash : none ≡ some k = sym b ∙ ap key_of (sym same) ∙ a in cc clash)

module _ {D : Type 0} where
  stored_ok :
      (put : Text → ConfigFile) (file file' : ConfigFile) (r : Result (ConfigError D) Text)
      (v : Text)
      → stored put file r ≡ (ok v, file')
      → (r ≡ ok v) × (file' ≡ put v)
  stored_ok put file file' (err e) v h = absurd (err-ne-ok (ap (λ x. x.0) h))
  stored_ok put file file' (ok w) v h =
      let same : w ≡ v =
        ok_injective (ap (λ (x : Result (ConfigError D) Text × ConfigFile). x.0) h) in
      (ap ok same, sym (ap (λ (x : Result (ConfigError D) Text × ConfigFile). x.1) h) ∙ ap put same)

  true_or_false_shows :
      (key value v : Text)
      → true_or_false {D = D} key value ≡ ok v
      → show_bool (text_eq v (codes "true")) ≡ v
  unfolding true_or_false
  true_or_false_shows key value v h = elim (Bool-cases (text_eq (trim value) (codes "true"))) [
    | inl q ↦ rw (← ok_injective (rw q at h))
    | inr q ↦ elim (Bool-cases (text_eq (trim value) (codes "false"))) [
      | inl r ↦ rw (← ok_injective (rw (q, r) at h))
      | inr r ↦ absurd (err-ne-ok (rw (q, r) at h))
    ]
  ]

  set_known_ok :
      (file file' : ConfigFile) (key value v : Text) (k : Key)
      → set_known {D = D} file key value (some k) ≡ (ok v, file')
      → (file' ≡ put_of k v file) × Shows k v
  set_known_ok file file' key value v rendezvous_url h = ((stored_ok _ file file' _ v h).1, tt)
  set_known_ok file file' key value v relay_url h = ((stored_ok _ file file' _ v h).1, tt)
  set_known_ok file file' key value v data_dir h = ((stored_ok _ file file' _ v h).1, tt)
  set_known_ok file file' key value v overwrite h =
      let (made, there) = stored_ok _ file file' _ v h in
      (there, true_or_false_shows key value v made)

  -- One key and another, or the same.
  known_field :
      (defaults : Defaults) (vars : Vars) (dir : Text) (file : ConfigFile) (v : Text) (k j : Key)
      → Shows k v
      → field_of {D = D} (merge defaults vars dir (put_of k v file)) (key_name j) (some j) ≡ (
          if text_eq (key_name k) (key_name j)
          then ok (first_of (var_of vars j) (some v) v)
          else field_of (merge defaults vars dir file) (key_name j) (some j))
  unfolding merge
  known_field defaults vars dir file v rendezvous_url rendezvous_url s =
      ap ok (first_some (env_str vars.rendezvous_url) v defaults.rendezvous_url v)
  known_field defaults vars dir file v rendezvous_url relay_url s = refl
  known_field defaults vars dir file v rendezvous_url data_dir s = refl
  known_field defaults vars dir file v rendezvous_url overwrite s = refl
  known_field defaults vars dir file v relay_url rendezvous_url s = refl
  known_field defaults vars dir file v relay_url relay_url s =
      ap ok (first_some (env_str vars.relay_url) v defaults.relay_url v)
  known_field defaults vars dir file v relay_url data_dir s = refl
  known_field defaults vars dir file v relay_url overwrite s = refl
  known_field defaults vars dir file v data_dir rendezvous_url s = refl
  known_field defaults vars dir file v data_dir relay_url s = refl
  known_field defaults vars dir file v data_dir data_dir s =
      ap ok (first_some (env_str vars.data_dir) v dir v)
  known_field defaults vars dir file v data_dir overwrite s = refl
  known_field defaults vars dir file v overwrite rendezvous_url s = refl
  known_field defaults vars dir file v overwrite relay_url s = refl
  known_field defaults vars dir file v overwrite data_dir s = refl
  known_field defaults vars dir file v overwrite overwrite s = ap ok s

  -- After a `set` that succeeds, the field of its key is the value it returned, unless the
  -- environment sets that key, whose value is then the field; the field of every other key is as
  -- before, and so is the refusal of every key that is unknown.
  pub field-set :
      (defaults : Defaults) (vars : Vars) (dir : Text) (file file' : ConfigFile)
      (key value v j : Text)
      → set {D = D} file key value ≡ (ok v, file')
      → field {D = D} (merge defaults vars dir file') j ≡ (
          if text_eq key j
          then ok (first_of (env_of vars j) (some v) v)
          else field (merge defaults vars dir file) j)
  unfolding set field
  field-set defaults vars dir file file' key value v j h = known (key_of key) refl (key_of j) refl h
    where
      known :
          (o : Option Key)
          → key_of key ≡ o
          → (p : Option Key) → key_of j ≡ p
          → set_known {D = D} file key value o ≡ (ok v, file')
          → field_of {D = D} (merge defaults vars dir file') j p ≡ (
              if text_eq key j
              then ok (first_of (var_of_known vars p) (some v) v)
              else field_of (merge defaults vars dir file) j p)
      known none a p b r =
          absurd (err-ne-ok (ap (λ (x : Result (ConfigError D) Text × ConfigFile). x.0) r))
      known (some k) a none b r = rw (keys_differ key j k a b)
      known (some k) a (some i) b r =
          let (there, shows) = set_known_ok file file' key value v k r in
          subst
            (λ x. field_of {D = D} (merge defaults vars dir x) j (some i) ≡ (
              if text_eq key j
              then ok (first_of (var_of vars i) (some v) v)
              else field_of (merge defaults vars dir file) j (some i)))
            (sym there)
            (rw (key_of_inv key k a, key_of_inv j i b)
              (known_field defaults vars dir file v k i shows))
