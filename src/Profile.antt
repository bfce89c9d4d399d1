-- ===== src/Profile.antt =====
-- pkg/profile/profile.go: options filled from a profile. The program keeps pointers to its options: the
-- store holds what they point to. Reading files and parsing YAML are parameters; the entries of a map
-- stand in the order in which Go goes through them, which is any.
pub mod Fields
mod Tests
use ydbops.Base.{
  ℕ, String, Bool, true, false, not, ◌&&◌, Option, none, some, List, [], ◌∷◌, ◌++◌, ◌==◌,
  if◌then◌else◌, num_comparable, text_comparable,
}
use ydbops.Collections.{get, put, or_empty}

-- A value of YAML: a string, a map, or what is neither.
mutual
  pub data Yaml : Type 0 where
    text : String → Yaml
    mapping : Entries → Yaml
    another_value : Yaml

  pub data Entries : Type 0 where
    no_entry : Entries
    entry : Yaml → Yaml → Entries → Entries

abbrev pub find_entry : Entries → String → Option Yaml
find_entry no_entry name = none
find_entry (entry (text key) value entries) name =
    let rest = find_entry entries name in if key == name then some value else rest
find_entry (entry key value entries) name = find_entry entries name

-- A pointer to an option and the option's default.
pub record RegisteredOption : Type 0 where
  pub ptr : ℕ
  pub default_value : String

abbrev pub Store : Type 0
Store = ℕ → String

abbrev pub write : Store → ℕ → String → Store
write store p value q = if q == p then value else store q

unfoldable pub append_to_options :
    List (String × List RegisteredOption)
    → String
    → ℕ
    → String
    → List (String × List RegisteredOption)
append_to_options pointers flag_name p default_value =
    put pointers flag_name
      (or_empty (get pointers flag_name) ++ record { ptr = p; default_value = default_value } ∷ [])

pub data ProfileError : Type 0 where
  no_config_path config_not_read config_not_parsed no_current_profile : ProfileError
  no_profiles profile_not_found unsupported_field : ProfileError

-- A type assertion may panic.
pub data Filled {ℓ} (A : Type ℓ) : Type ℓ where
  filled : A → Filled A
  unfilled : ProfileError → Filled A
  panicked : Filled A

infixl 5 ◌>>=◌
abbrev pub ◌>>=◌ {ℓ κ} : {A : Type ℓ} {B : Type κ} → Filled A → (A → Filled B) → Filled B
filled a >>= f = f a
unfilled err >>= f = unfilled err
panicked >>= f = panicked

-- An option that has its default takes the value, which is to be a string.
abbrev pub fill_option : Store → RegisteredOption → Yaml → Filled Store
fill_option store o (text value) =
    filled (if store o.ptr == o.default_value then write store o.ptr value else store)
fill_option store o value = if store o.ptr == o.default_value then panicked else filled store

unfoldable pub fill_options : Store → List RegisteredOption → Yaml → Filled Store
fill_options store [] value = filled store
fill_options store (o ∷ options) value =
    fill_option store o value >>= λ store'. fill_options store' options value

module _ (pointers : List (String × List RegisteredOption)) where
  abbrev pub fill_field : Store → Option (List RegisteredOption) → Yaml → Filled Store
  fill_field store none value = unfilled unsupported_field
  fill_field store (some options) value = fill_options store options value

  unfoldable pub fill_profile : Store → Entries → Filled Store
  fill_profile store no_entry = filled store
  fill_profile store (entry (text name) value entries) =
      fill_field store (get pointers name) value >>= λ store'. fill_profile store' entries
  fill_profile store (entry name value entries) = panicked

abbrev or_unfilled {ℓ} : {A : Type ℓ} → Option A → ProfileError → Filled A
or_unfilled none err = unfilled err
or_unfilled (some a) err = filled a

abbrev text_of : Yaml → Filled String
text_of (text value) = filled value
text_of value = panicked

abbrev entries_of : Yaml → Filled Entries
entries_of (mapping entries) = filled entries
entries_of value = panicked

-- The name given, or that of the current profile.
abbrev profile_name_in : List (String × Yaml) → String → Filled String
profile_name_in config profile_name =
    if profile_name == ""
    then or_unfilled (get config "current-profile") no_current_profile >>= text_of
    else filled profile_name

module _ (read_file : String → Option String)
    (unmarshal : String → Option (List (String × Yaml))) where
  -- The entries of the profile in a config file.
  unfoldable pub active_profile : String → String → Filled Entries
  active_profile config_file profile_name =
      or_unfilled (read_file config_file) config_not_read
      >>= (λ content. or_unfilled (unmarshal content) config_not_parsed)
      >>= λ config. profile_name_in config profile_name >>= λ name.
          or_unfilled (get config "profiles") no_profiles
          >>= entries_of
          >>= (λ profiles. or_unfilled (find_entry profiles name) profile_not_found)
          >>= entries_of

  unfoldable pub fill_defaults_from_active_profile :
      List (String × List RegisteredOption) → String → String → Store → Filled Store
  fill_defaults_from_active_profile pointers config_file profile_name store =
      if config_file == "" && profile_name == ""
      then filled store
      else if config_file == "" && not (profile_name == "")
      then unfilled no_config_path
      else active_profile config_file profile_name >>= fill_profile pointers store
