-- ===== src/Profile/Fields.antt =====
-- What a profile changes in the options: only those that have their defaults.
use ydbops.Base.{
  ℕ, ◌≡◌, ◌≢◌, refl, sym, ap, ◌∙◌, inl, inr, false, Bool-cases, String, Option, none, some, List,
  [], ◌∷◌, ◌++◌, All, ◌==◌, ==_refl, eq_of_==, if◌then◌else◌, num_comparable, text_comparable,
}
use mathlib.Core.Path.{subst}
use ydbops.Collections.{get}
use ydbops.Profile.{
  Yaml, text, mapping, another_value, Entries, no_entry, entry, find_entry, RegisteredOption, Store,
  Filled, filled, unfilled, panicked, ◌>>=◌, fill_option, fill_options, fill_field, fill_profile,
  active_profile, fill_defaults_from_active_profile,
}

-- The keys of a map are distinct.
abbrev pub DistinctKeys : Entries → Type 0
DistinctKeys no_entry = Unit
DistinctKeys (entry (text key) value entries) =
    (find_entry entries key ≡ none) × DistinctKeys entries
DistinctKeys (entry key value entries) = DistinctKeys entries

abbrev pub Apart : ℕ → List RegisteredOption → Type 0
Apart p options = All (λ o. o.ptr ≢ p) options

-- The option is registered for the flag, and its pointer is registered nowhere else.
pub record IsRegistered (pointers : List (String × List RegisteredOption)) (name : String)
    (o : RegisteredOption) : Type 0 where
  pub before : List RegisteredOption
  pub after : List RegisteredOption
  pub found : get pointers name ≡ some (before ++ o ∷ after)
  pub apart_before : Apart o.ptr before
  pub apart_after : Apart o.ptr after
  pub apart_others :
      (other : String) (options : List RegisteredOption)
      → (other == name) ≡ false
      → get pointers other ≡ some options
      → Apart o.ptr options

bind-filled {ℓ κ} :
    {A : Type ℓ} {B : Type κ} (o : Filled A) (f : A → Filled B) {b : B}
    → o >>= f ≡ filled b
    → (a : A) × (o ≡ filled a) × (f a ≡ filled b)
bind-filled (filled a) f e = (a, refl, e)
bind-filled (unfilled err) f e = cc
bind-filled panicked f e = cc

filled-injective {ℓ} : {A : Type ℓ} {a b : A} → filled a ≡ filled b → a ≡ b
filled-injective e = cc

not_equal : (p q : ℕ) → p ≢ q → (q == p) ≡ false
not_equal p q differ = elim (Bool-cases (q == p)) [
  | inl e ↦ absurd (differ (sym (eq_of_== q p e)))
  | inr e ↦ e
]

fill_option-other :
    (p : ℕ) (store store' : Store) (o : RegisteredOption) (value : Yaml)
    → o.ptr ≢ p
    → fill_option store o value ≡ filled store'
    → store' p ≡ store p
fill_option-other p store store' o (text value) differ e =
    let same = sym (filled-injective e) in
    elim (Bool-cases (store o.ptr == o.default_value)) [
      | inl at_default ↦ ap (λ s. s p) (rw at_default at same) ∙ rw (not_equal o.ptr p differ) refl
      | inr given ↦ ap (λ s. s p) (rw given at same)
    ]
fill_option-other p store store' o (mapping entries) differ e =
    elim (Bool-cases (store o.ptr == o.default_value)) [
      | inl at_default ↦ let e' = rw at_default at e in cc
      | inr given ↦ ap (λ s. s p) (sym (filled-injective (rw given at e)))
    ]
fill_option-other p store store' o another_value differ e =
    elim (Bool-cases (store o.ptr == o.default_value)) [
      | inl at_default ↦ let e' = rw at_default at e in cc
      | inr given ↦ ap (λ s. s p) (sym (filled-injective (rw given at e)))
    ]

fill_options-others :
    (p : ℕ) (store store' : Store) (options : List RegisteredOption) (value : Yaml)
    → Apart p options
    → fill_options store options value ≡ filled store'
    → store' p ≡ store p
unfolding fill_options
fill_options-others p store store' [] value h e = ap (λ s. s p) (sym (filled-injective e))
fill_options-others p store store' (o ∷ options) value (differ, h) e =
    let (s, one, more) = bind-filled (fill_option store o value) _ e in
    fill_options-others p s store' options value h more
    ∙ fill_option-other p store s o value differ one

-- What the option itself becomes.
abbrev pub filled_with : Store → RegisteredOption → String → String
filled_with store o value = if store o.ptr == o.default_value then value else store o.ptr

fill_option-same :
    (store store' : Store) (o : RegisteredOption) (value : String)
    → fill_option store o (text value) ≡ filled store'
    → store' o.ptr ≡ filled_with store o value
fill_option-same store store' o value e =
    let same = sym (filled-injective e) in
    elim (Bool-cases (store o.ptr == o.default_value)) [
      | inl at_default ↦
          ap (λ s. s o.ptr) (rw at_default at same) ∙ rw (at_default, ==_refl o.ptr) refl
      | inr given ↦ ap (λ s. s o.ptr) (rw given at same) ∙ rw given refl
    ]

-- An option among those of its flag.
fill_options-among :
    (store store' : Store) (before after : List RegisteredOption) (o : RegisteredOption)
    (value : String)
    → Apart o.ptr before
    → Apart o.ptr after
    → fill_options store (before ++ o ∷ after) (text value) ≡ filled store'
    → store' o.ptr ≡ filled_with store o value
unfolding fill_options
fill_options-among store store' [] after o value h k e =
    let (s, one, more) =
      bind-filled (fill_option store o (text value)) (λ s'. fill_options s' after (text value)) e in
    fill_options-others o.ptr s store' after (text value) k more
    ∙ fill_option-same store s o value one
fill_options-among store store' (b ∷ before) after o value (differ, h) k e =
    let (s, one, more) =
      bind-filled (fill_option store b (text value))
        (λ s'. fill_options s' (before ++ o ∷ after) (text value)) e in
    fill_options-among s store' before after o value h k more
    ∙ ap (λ old. if old == o.default_value then value else old)
        (fill_option-other o.ptr store s b (text value) differ one)

module _ (pointers : List (String × List RegisteredOption)) (name : String) (o : RegisteredOption)
    (registered : IsRegistered pointers name o) where
  other_field :
      (other : String) (found : Option (List RegisteredOption)) (store store' : Store)
      (value : Yaml)
      → (other == name) ≡ false
      → get pointers other ≡ found
      → fill_field pointers store found value ≡ filled store'
      → store' o.ptr ≡ store o.ptr
  other_field other none store store' value differ at e = cc
  other_field other (some options) store store' value differ at e =
      fill_options-others o.ptr store store' options value
        (registered.apart_others other options differ at) e

  -- Without an entry for its flag an option keeps what it has.
  no_entry-same :
      (entries : Entries) (store store' : Store)
      → find_entry entries name ≡ none
      → fill_profile pointers store entries ≡ filled store'
      → store' o.ptr ≡ store o.ptr
  unfolding fill_profile
  no_entry-same no_entry store store' missing e = ap (λ s. s o.ptr) (sym (filled-injective e))
  no_entry-same (entry (mapping inner) value entries) store store' missing e = cc
  no_entry-same (entry another_value value entries) store store' missing e = cc
  no_entry-same (entry (text key) value entries) store store' missing e =
      let (s, one, more) = bind-filled (fill_field pointers store (get pointers key) value) _ e in
      elim (Bool-cases (key == name)) [
        | inl same ↦ let m = rw same at missing in cc
        | inr differ ↦
            no_entry-same entries s store' (rw differ at missing) more
            ∙ other_field key (get pointers key) store s value differ refl one
      ]

  own_field :
      (store store' : Store) (value : String)
      → fill_field pointers store (get pointers name) (text value) ≡ filled store'
      → store' o.ptr ≡ filled_with store o value
  own_field store store' value e =
      fill_options-among store store' registered.before registered.after o value
        registered.apart_before registered.apart_after
        (subst (λ found. fill_field pointers store found (text value) ≡ filled store')
          registered.found e)

  some_entry-filled :
      (entries : Entries) (store store' : Store) (value : String)
      → DistinctKeys entries
      → find_entry entries name ≡ some (text value)
      → fill_profile pointers store entries ≡ filled store'
      → store' o.ptr ≡ filled_with store o value
  unfolding fill_profile
  some_entry-filled no_entry store store' value distinct has e = cc
  some_entry-filled (entry (mapping inner) v entries) store store' value distinct has e = cc
  some_entry-filled (entry another_value v entries) store store' value distinct has e = cc
  some_entry-filled (entry (text key) v entries) store store' value (once, distinct) has e =
      let (s, one, more) = bind-filled (fill_field pointers store (get pointers key) v) _ e in
      elim (Bool-cases (key == name)) [
        | inl same ↦
            let key_is = eq_of_== key name same in
            let own = own_field store s value (
              subst (λ w. fill_field pointers store (get pointers name) w ≡ filled s)
                (some-injective (rw same at has))
                (subst (λ k. fill_field pointers store (get pointers k) v ≡ filled s) key_is
                  one)) in
            no_entry-same entries s store' (subst (λ k. find_entry entries k ≡ none) key_is once)
              more
            ∙ own
        | inr differ ↦
            some_entry-filled entries s store' value distinct (rw differ at has) more
            ∙ ap (λ old. if old == o.default_value then value else old)
                (other_field key (get pointers key) store s v differ refl one)
      ]
    where
      some-injective : {a b : Yaml} → some a ≡ some b → a ≡ b
      some-injective p = cc

  -- After a profile has been filled in, in whatever order Go goes through its entries, an option that is
  -- registered once has what it had where its value is not its default or where the profile has no entry
  -- for its flag, and the value of the entry where it had its default.
  pub fill_defaults_lem :
      (read_file : String → Option String) (unmarshal : String → Option (List (String × Yaml)))
      (config_file profile_name : String) (entries : Entries) (store store' : Store)
      → config_file ≢ ""
      → active_profile read_file unmarshal config_file profile_name ≡ filled entries
      → DistinctKeys entries
      → fill_defaults_from_active_profile read_file unmarshal pointers config_file profile_name
          store
        ≡ filled store'
      → (find_entry entries name ≡ none → store' o.ptr ≡ store o.ptr)
        × ((value : String)
            → find_entry entries name ≡ some (text value)
            → store' o.ptr ≡ (if store o.ptr == o.default_value then value else store o.ptr))
  unfolding fill_defaults_from_active_profile
  fill_defaults_lem read_file unmarshal config_file profile_name entries store store' named active
        distinct e =
      elim (Bool-cases (config_file == "")) [
        | inl empty ↦ absurd (named (eq_of_== config_file "" empty))
        | inr given ↦
            let f = rw active at rw given at e in
            (
              (λ missing. no_entry-same entries store store' missing f),
              λ value has. some_entry-filled entries store store' value distinct has f,
            )
      ]
