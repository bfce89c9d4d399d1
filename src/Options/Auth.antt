-- ===== src/Options/Auth.antt =====
-- pkg/options/auth.go: which credentials the flags and the environment select, and their `Validate`.
-- The environment variables and the files are a parameter. What the options hold after an error is left
-- out: the command ends with it.
pub mod Order
pub mod Accepted
mod Tests
use Prim.Native.String
use Prim.Native.Char.{code}
use ydbops.Base.{
  ℕ, String, Bool, true, false, not, ◌&&◌, ◌≡◌, Option, none, some, List, [], ◌∷◌, ◌==◌,
  if◌then◌else◌, length, All, Memᴰ, num_comparable, text_comparable,
}
use ydbops.Hosts.{is_space}

-- `home_file` is `filepath.Join` of the home directory of the user.
pub record Machine : Type 0 where
  pub lookup_env : String → Option String
  pub read_file : String → Option String
  pub exists : String → Bool
  pub home_file : String → String

pub data AuthType : Type 0 where
  unset anonymous static iam_token iam_creds iam_metadata multiple_at_once : AuthType

pub record AuthStatic : Type 0 where
  pub user : String
  pub password_file : String
  pub password : String

pub record AuthIamToken : Type 0 where
  pub token_file : String
  pub token : String

pub record AuthIamCreds : Type 0 where
  pub key_filename : String
  pub endpoint : String

-- `Auths`: every type of credentials has its entry. `metadata_enabled` is that of the metadata service.
pub record Auths : Type 0 where
  pub static_auth : AuthStatic
  pub token_auth : AuthIamToken
  pub creds_auth : AuthIamCreds
  pub metadata_enabled : Bool

pub data AuthError : Type 0 where
  password_file_not_read no_password token_file_not_read no_token : AuthError
  no_such_key_file no_key_filename no_iam_endpoint multiple_specified : AuthError

pub data Checked {ℓ} (A : Type ℓ) : Type ℓ where
  valid : A → Checked A
  invalid : AuthError → Checked A

abbrev pub is_set : Option String → Bool
is_set none = false
is_set (some value) = true

-- `~/` at the start of a path.
abbrev pub expand_home : Machine → String → String
expand_home m (String.◌∷◌ c (String.◌∷◌ d path)) =
    if code c == b'~' && code d == b'/' then m.home_file path else String.◌∷◌ c (String.◌∷◌ d path)
expand_home m path = path

-- `strings.TrimSpace`
abbrev trim_start : String → String
trim_start String.[] = ""
trim_start (String.◌∷◌ c s) =
    let rest = trim_start s in if is_space (code c) then rest else String.◌∷◌ c s

abbrev trim_end : String → String
trim_end String.[] = ""
trim_end (String.◌∷◌ c s) =
    let rest = trim_end s in if is_space (code c) && rest == "" then "" else String.◌∷◌ c rest

abbrev pub trim_space : String → String
trim_space s = trim_end (trim_start s)

abbrev pub with_password : AuthStatic → AuthError → Option String → Checked AuthStatic
with_password a err none = invalid err
with_password a err (some content) = valid (record a { password = content })

unfoldable pub validate_static : Machine → AuthStatic → Checked AuthStatic
validate_static m a =
    if not (a.password_file == "")
    then with_password a password_file_not_read (m.read_file (expand_home m a.password_file))
    else with_password a no_password (m.lookup_env "YDB_PASSWORD")

abbrev pub with_env_token : AuthIamToken → Option String → Checked AuthIamToken
with_env_token a none = invalid no_token
with_env_token a (some token) =
    if not (token == "") then valid (record a { token = token }) else invalid no_token

abbrev pub with_file_token : AuthIamToken → Option String → Checked AuthIamToken
with_file_token a none = invalid token_file_not_read
with_file_token a (some content) = valid (record a { token = trim_space content })

unfoldable pub validate_iam_token : Machine → AuthIamToken → Checked AuthIamToken
validate_iam_token m a =
    if a.token_file == ""
    then with_env_token a (m.lookup_env "YDB_TOKEN")
    else with_file_token a (m.read_file a.token_file)

abbrev pub with_env_key_file : AuthIamCreds → Option String → AuthIamCreds
with_env_key_file a none = a
with_env_key_file a (some key_filename) = record a { key_filename = key_filename }

abbrev pub check_iam_creds : AuthIamCreds → Checked AuthIamCreds
check_iam_creds a =
    if a.key_filename == ""
    then invalid no_key_filename
    else if a.endpoint == ""
    then invalid no_iam_endpoint
    else valid a

unfoldable pub validate_iam_creds : Machine → AuthIamCreds → Checked AuthIamCreds
validate_iam_creds m a =
    if not (a.key_filename == "") && not (m.exists a.key_filename)
    then invalid no_such_key_file
    else check_iam_creds (with_env_key_file a (m.lookup_env "SA_KEY_FILE"))

abbrev key_if : Bool → AuthType → List AuthType → List AuthType
key_if b k keys = if b then k ∷ keys else keys

-- The keys that `determineExplicitAuthType` puts into its map.
unfoldable pub explicit_keys : Machine → Auths → List AuthType
explicit_keys m auths =
    key_if
      (not (auths.static_auth.user == "")
        && (if not (auths.static_auth.password_file == "")
            then true
            else is_set (m.lookup_env "YDB_PASSWORD")))
      static
      (key_if auths.metadata_enabled iam_metadata (
        key_if (not (auths.token_auth.token_file == "")) iam_token (
          key_if
            (not (auths.creds_auth.endpoint == "") && not (auths.creds_auth.key_filename == ""))
            iam_creds [])))

-- The loop over the keys of the map, from `result` on.
abbrev pub pick : AuthType → List AuthType → AuthType
pick result [] = result
pick unset (k ∷ keys) = pick k keys
pick result (k ∷ keys) = multiple_at_once

-- The order in which Go goes through a map is any.
unfoldable pub determine_explicit_auth_type :
    Machine → (List AuthType → List AuthType) → Auths → AuthType
determine_explicit_auth_type m order auths = pick unset (order (explicit_keys m auths))

unfoldable pub determine_implicit_auth_type : Machine → AuthType
determine_implicit_auth_type m =
    if is_set (m.lookup_env "YDB_TOKEN")
    then iam_token
    else if is_set (m.lookup_env "YDB_USER") && is_set (m.lookup_env "YDB_PASSWORD")
    then static
    else anonymous

-- `AuthOptions` with the credentials, or the dereference of a nil `Creds`.
pub data Validated : Type 0 where
  accepted : AuthType → Auths → Validated
  rejected : AuthError → Validated
  panicked : Validated

abbrev pub accept {ℓ} : {A : Type ℓ} → AuthType → (A → Auths) → Checked A → Validated
accept k update (invalid err) = rejected err
accept k update (valid a) = accepted k (update a)

-- `o.Creds = Auths[activeAuthType]` and its `Validate`.
unfoldable pub validate_as : Machine → Auths → AuthType → Validated
validate_as m auths anonymous = accepted anonymous auths
validate_as m auths static =
    accept static (λ a. record auths { static_auth = a }) (validate_static m auths.static_auth)
validate_as m auths iam_token =
    accept iam_token (λ a. record auths { token_auth = a }) (validate_iam_token m auths.token_auth)
validate_as m auths iam_creds =
    accept iam_creds (λ a. record auths { creds_auth = a }) (validate_iam_creds m auths.creds_auth)
validate_as m auths iam_metadata = accepted iam_metadata auths
validate_as m auths unset = panicked
validate_as m auths multiple_at_once = panicked

abbrev pub validate_explicit : Machine → Auths → AuthType → Validated
validate_explicit m auths multiple_at_once = rejected multiple_specified
validate_explicit m auths unset = validate_as m auths (determine_implicit_auth_type m)
validate_explicit m auths k = validate_as m auths k

unfoldable pub validate_auth : Machine → (List AuthType → List AuthType) → Auths → Validated
validate_auth m order auths = validate_explicit m auths (determine_explicit_auth_type m order auths)
