-- ===== src/Profile/Tests.antt =====
-- A profile with two fields over three options, one of which has been given as a flag.
use ydbops.Base.{
  ◌≡◌, refl, sym, arith, false, Bool-cases, inl, inr, String, Option, none, some, List, [], ◌∷◌,
  ◌==◌, eq_of_==, if◌then◌else◌, num_comparable, text_comparable,
}
use mathlib.Core.Path.{subst}
use ydbops.Collections.{get, or_empty}
use ydbops.Profile.{
  Yaml, text, mapping, Entries, no_entry, entry, find_entry, RegisteredOption, Store, write, filled,
  fill_options, fill_profile, active_profile, fill_defaults_from_active_profile,
}
use ydbops.Profile.Fields.{Apart, IsRegistered, fill_defaults_lem}

abbrev user_option : RegisteredOption
user_option = record { ptr = 1; default_value = "" }

abbrev registry : List (String × List RegisteredOption)
registry =
    ("endpoint", record { ptr = 0; default_value = "" } ∷ []) ∷ ("user", user_option ∷ []) ∷ []

-- `--endpoint` is given.
abbrev given_flags : Store
given_flags p = if p == 0 then "grpc://node.net" else ""

abbrev fields : Entries
fields =
    entry (text "user") (text "root") (entry (text "endpoint") (text "grpc://other.net") no_entry)

abbrev config : List (String × Yaml)
config =
    ("current-profile", text "main")
    ∷ ("profiles", mapping (entry (text "main") (mapping fields) no_entry))
    ∷ []

abbrev read_config : String → Option String
read_config path = some "config"

abbrev unmarshal_config : String → Option (List (String × Yaml))
unmarshal_config content = some config

abbrev filled_flags : Store
filled_flags = write given_flags 1 "root"

endpoint-Apart :
    (other : String) (options : List RegisteredOption)
    → (other == "user") ≡ false
    → get registry other ≡ some options
    → Apart 1 options
unfolding get
endpoint-Apart other options differ at = elim (Bool-cases ("endpoint" == other)) [
  | inl e ↦
      subst (λ found. Apart 1 (or_empty found)) (rw e at at) ((λ same. omega (arith, same)), tt)
  | inr e ↦ elim (Bool-cases ("user" == other)) [
    | inl e' ↦
        let differ' = subst (λ o. (o == "user") ≡ false) (sym (eq_of_== "user" other e')) differ in
        cc
    | inr e' ↦ let at' = rw (e, e') at at in cc
  ]
]

user-IsRegistered : IsRegistered registry "user" user_option
unfolding get
user-IsRegistered = record {
  before = [];
  after = [];
  found = refl;
  apart_before = tt;
  apart_after = tt;
  apart_others = endpoint-Apart;
}

active_main : active_profile read_config unmarshal_config "config.yaml" "" ≡ filled fields
unfolding active_profile get
active_main = refl

filled_main :
    fill_defaults_from_active_profile read_config unmarshal_config registry "config.yaml" ""
      given_flags
    ≡ filled filled_flags
unfolding fill_defaults_from_active_profile active_profile get fill_profile fill_options
filled_main = refl

fill_defaults_lem_example :
    (find_entry fields "user" ≡ none → filled_flags 1 ≡ given_flags 1)
    × ((value : String)
        → find_entry fields "user" ≡ some (text value)
        → filled_flags 1 ≡ (if given_flags 1 == "" then value else given_flags 1))
fill_defaults_lem_example =
    fill_defaults_lem registry "user" user_option user-IsRegistered read_config unmarshal_config
      "config.yaml" "" fields given_flags filled_flags (λ e. cc) active_main (refl, (refl, tt))
      filled_main
