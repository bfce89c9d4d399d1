-- ===== src/Options/Auth/Accepted.antt =====
-- pkg/options/auth.go: what the code behind the options can rely on when `Validate` accepts them.
use ydbops.Base.{
  ◌≡◌, ◌≢◌, refl, ap, ◌∙◌, false, Bool-cases, inl, inr, not, ◌&&◌, String, Option, none, some, List,
  [], ◌∷◌, ◌==◌, text_comparable,
}
use ydbops.Options.Auth.{
  with_password, no_password, Machine, Auths, AuthType, AuthStatic, AuthIamCreds, unset, anonymous,
  static, iam_token, iam_creds, iam_metadata, multiple_at_once, is_set, explicit_keys, Checked,
  valid, invalid, validate_static, validate_iam_token, validate_iam_creds,
  determine_implicit_auth_type, Validated, accepted, rejected, panicked, accept, validate_as,
  validate_auth, with_env_token, with_file_token, with_env_key_file, check_iam_creds,
}
use ydbops.Base.{All}
use ydbops.Options.Auth.Order.{
  IsOrder, IsExplicit, explicit_keys-IsExplicit, validate_specified, validate_auth-specified,
}

-- The type is one that has credentials, and these have what their provider takes.
abbrev pub IsUsable : AuthType → Auths → Type 0
IsUsable anonymous auths = Unit
IsUsable static auths = Unit
IsUsable iam_metadata auths = Unit
IsUsable iam_token auths = auths.token_auth.token_file ≡ "" → auths.token_auth.token ≢ ""
IsUsable iam_creds auths = (auths.creds_auth.key_filename ≢ "") × (auths.creds_auth.endpoint ≢ "")
IsUsable unset auths = ⊥
IsUsable multiple_at_once auths = ⊥

-- What `Validate` accepts is usable, and it does not read a nil `Creds`.
abbrev pub IsSound : Validated → Type 0
IsSound (accepted k auths) = IsUsable k auths
IsSound (rejected err) = Unit
IsSound panicked = ⊥

not_empty : (s : String) → (s == "") ≡ false → s ≢ ""
not_empty s e same = let e' = rw same at e in cc

accept_static-IsSound :
    (auths : Auths) (c : Checked AuthStatic)
    → IsSound (accept static (λ a. record auths { static_auth = a }) c)
accept_static-IsSound auths (valid a) = tt
accept_static-IsSound auths (invalid err) = tt

env_token-IsSound :
    (auths : Auths) (found : Option String)
    → IsSound (
        accept iam_token
          (λ a. record auths { token_auth = a })
          (with_env_token auths.token_auth found))
env_token-IsSound auths none = tt
env_token-IsSound auths (some token) = elim (Bool-cases (token == "")) [
  | inl e ↦ rw e tt
  | inr e ↦ rw e (λ named. not_empty token e)
]

file_token-IsSound :
    (auths : Auths) (content : Option String)
    → (auths.token_auth.token_file == "") ≡ false
    → IsSound (
        accept iam_token
          (λ a. record auths { token_auth = a })
          (with_file_token auths.token_auth content))
file_token-IsSound auths none e = tt
file_token-IsSound auths (some content) e =
    λ unnamed. absurd (not_empty auths.token_auth.token_file e unnamed)

iam_token-IsSound :
    (m : Machine) (auths : Auths)
    → IsSound (
        accept iam_token
          (λ a. record auths { token_auth = a })
          (validate_iam_token m auths.token_auth))
unfolding validate_iam_token
iam_token-IsSound m auths = elim (Bool-cases (auths.token_auth.token_file == "")) [
  | inl e ↦ rw e (env_token-IsSound auths (m.lookup_env "YDB_TOKEN"))
  | inr e ↦ rw e (file_token-IsSound auths (m.read_file auths.token_auth.token_file) e)
]

check_iam_creds-IsSound :
    (auths : Auths) (a : AuthIamCreds)
    → IsSound (accept iam_creds (λ b. record auths { creds_auth = b }) (check_iam_creds a))
check_iam_creds-IsSound auths a = elim (Bool-cases (a.key_filename == "")) [
  | inl e ↦ rw e tt
  | inr e ↦ elim (Bool-cases (a.endpoint == "")) [
    | inl e' ↦ rw (e, e') tt
    | inr e' ↦ rw (e, e') (not_empty a.key_filename e, not_empty a.endpoint e')
  ]
]

iam_creds-IsSound :
    (m : Machine) (auths : Auths)
    → IsSound (
        accept iam_creds
          (λ b. record auths { creds_auth = b })
          (validate_iam_creds m auths.creds_auth))
unfolding validate_iam_creds
iam_creds-IsSound m auths =
    elim (Bool-cases
      (not (auths.creds_auth.key_filename == "") && not (m.exists auths.creds_auth.key_filename))) [
        | inl e ↦ rw e tt
        | inr e ↦ rw e (
            check_iam_creds-IsSound auths
              (with_env_key_file auths.creds_auth (m.lookup_env "SA_KEY_FILE")))
      ]

abbrev IsChosen : AuthType → Type 0
IsChosen unset = ⊥
IsChosen multiple_at_once = ⊥
IsChosen _ = Unit

validate_as-IsSound :
    (m : Machine) (auths : Auths) (k : AuthType) → IsChosen k → IsSound (validate_as m auths k)
unfolding validate_as
validate_as-IsSound m auths unset p = absurd p
validate_as-IsSound m auths multiple_at_once p = absurd p
validate_as-IsSound m auths anonymous p = tt
validate_as-IsSound m auths iam_metadata p = tt
validate_as-IsSound m auths static p =
    accept_static-IsSound auths (validate_static m auths.static_auth)
validate_as-IsSound m auths iam_token p = iam_token-IsSound m auths
validate_as-IsSound m auths iam_creds p = iam_creds-IsSound m auths

implicit-IsChosen : (m : Machine) → IsChosen (determine_implicit_auth_type m)
unfolding determine_implicit_auth_type
implicit-IsChosen m = elim (Bool-cases (is_set (m.lookup_env "YDB_TOKEN"))) [
  | inl e ↦ rw e tt
  | inr e ↦
      elim (Bool-cases (is_set (m.lookup_env "YDB_USER") && is_set (m.lookup_env "YDB_PASSWORD"))) [
        | inl e' ↦ rw (e, e') tt
        | inr e' ↦ rw (e, e') tt
      ]
]

explicit-IsChosen : (k : AuthType) → IsExplicit k → IsChosen k
explicit-IsChosen unset p = p
explicit-IsChosen multiple_at_once p = p
explicit-IsChosen anonymous p = tt
explicit-IsChosen static p = tt
explicit-IsChosen iam_token p = tt
explicit-IsChosen iam_creds p = tt
explicit-IsChosen iam_metadata p = tt

specified-IsSound :
    (m : Machine) (auths : Auths) (keys : List AuthType)
    → All IsExplicit keys
    → IsSound (validate_specified m auths keys)
specified-IsSound m auths [] h =
    validate_as-IsSound m auths (determine_implicit_auth_type m) (implicit-IsChosen m)
specified-IsSound m auths (k ∷ []) (p, h) = validate_as-IsSound m auths k (explicit-IsChosen k p)
specified-IsSound m auths (k ∷ j ∷ keys) h = tt

-- Whatever the flags, the environment, the files and the order of the map: `Validate` does not read a
-- nil `Creds`, and what it accepts is one of the five real types, never `Unset` or `MultipleAtOnce`,
-- with a token that is not empty where no token file is named, and with a key file name and an endpoint
-- that are not empty for a service account.
pub validate_auth-IsSound :
    (m : Machine) (order : List AuthType → List AuthType) (auths : Auths)
    → IsOrder order
    → IsSound (validate_auth m order auths)
validate_auth-IsSound m order auths any =
    rw (validate_auth-specified m order auths any)
      (specified-IsSound m auths (explicit_keys m auths) (explicit_keys-IsExplicit m auths))

-- No flag is given; `--iam-endpoint` has a default.
abbrev pub no_flags : String → Auths
no_flags endpoint = record {
  static_auth = record { user = ""; password_file = ""; password = "" };
  token_auth = record { token_file = ""; token = "" };
  creds_auth = record { key_filename = ""; endpoint = endpoint };
  metadata_enabled = false;
}

no_flags_keys : (m : Machine) (endpoint : String) → explicit_keys m (no_flags endpoint) ≡ []
unfolding explicit_keys
no_flags_keys m endpoint = elim (Bool-cases (endpoint == "")) [
  | inl e ↦ rw e refl
  | inr e ↦ rw e refl
]

abbrev accept_password : String → Option String → Validated
accept_password endpoint found =
    accept static (λ a. record (no_flags endpoint) { static_auth = a })
      (with_password (no_flags endpoint).static_auth no_password found)

-- With a user and a password in the environment and nothing in the flags or in `YDB_TOKEN`, the static
-- credentials are accepted with the password of the environment and with no user name, whatever
-- `YDB_USER` holds.
pub implicit_static_no_user :
    (m : Machine) (order : List AuthType → List AuthType) (endpoint user password : String)
    → IsOrder order
    → m.lookup_env "YDB_TOKEN" ≡ none
    → m.lookup_env "YDB_USER" ≡ some user
    → m.lookup_env "YDB_PASSWORD" ≡ some password
    → validate_auth m order (no_flags endpoint)
      ≡ accepted static (record (no_flags endpoint) {
        static_auth = record { user = ""; password_file = ""; password = password };
      })
unfolding validate_as validate_static determine_implicit_auth_type
implicit_static_no_user m order endpoint user password any no_token has_user has_password =
    let implied : determine_implicit_auth_type m ≡ static =
      rw (no_token, has_user, has_password) refl in
    validate_auth-specified m order (no_flags endpoint) any
    ∙ (ap (validate_specified m (no_flags endpoint)) (no_flags_keys m endpoint)
        ∙ (ap (validate_as m (no_flags endpoint)) implied
            ∙ ap (accept_password endpoint) has_password))
