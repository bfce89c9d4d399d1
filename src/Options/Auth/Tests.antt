-- ===== src/Options/Auth/Tests.antt =====
-- Credentials from the environment, and from flags that ask for two types.
use ydbops.Base.{
  ◌≡◌, refl, String, true, Option, none, some, List, [], ◌∷◌, ◌==◌, if◌then◌else◌, All, Memᴰ,
  text_comparable,
}
use ydbops.Options.Auth.{
  Machine, Auths, AuthType, static, iam_metadata, iam_token, trim_space, explicit_keys, accepted,
  validate_auth,
}
use ydbops.Options.Auth.Order.{IsOrder, validate_specified, validate_auth-specified}
use ydbops.Options.Auth.Accepted.{no_flags, implicit_static_no_user}

abbrev env_user : String → Option String
env_user name =
    if name == "YDB_USER" then some "root" else if name == "YDB_PASSWORD" then some "1234" else none

abbrev env_machine : Machine
env_machine = record {
  lookup_env = env_user;
  read_file = λ path. some " token\n";
  exists = λ path. true;
  home_file = λ path. path;
}

abbrev two_types : Auths
two_types = record {
  static_auth = record { user = ""; password_file = ""; password = "" };
  token_auth = record { token_file = "t"; token = "" };
  creds_auth = record { key_filename = ""; endpoint = "iam.api.cloud.yandex.net" };
  metadata_enabled = true;
}

abbrev swapped : List AuthType → List AuthType
swapped (k ∷ j ∷ []) = j ∷ k ∷ []
swapped keys = keys

inside_keys :
    (given keys : List AuthType)
    → ((k : AuthType) → Memᴰ k given → Memᴰ k keys)
    → All (λ k. Memᴰ k keys) given
inside_keys [] keys h = tt
inside_keys (k ∷ given) keys h =
    (h k (Memᴰ.head refl), inside_keys given keys (λ j m. h j (Memᴰ.tail m)))

swapped-IsOrder : IsOrder swapped
swapped-IsOrder [] = (refl, tt)
swapped-IsOrder (k ∷ []) = (refl, inside_keys (k ∷ []) _ (λ i m. m))
swapped-IsOrder (k ∷ j ∷ []) = (refl, (Memᴰ.tail (Memᴰ.head refl), (Memᴰ.head refl, tt)))
swapped-IsOrder (k ∷ j ∷ i ∷ keys) = (refl, inside_keys (k ∷ j ∷ i ∷ keys) _ (λ i m. m))

trimmed_token : trim_space " token\n" ≡ "token"
trimmed_token = refl

two_keys : explicit_keys env_machine two_types ≡ iam_metadata ∷ iam_token ∷ []
unfolding explicit_keys
two_keys = refl

validate_auth-specified_example :
    validate_auth env_machine swapped two_types
    ≡ validate_specified env_machine two_types (explicit_keys env_machine two_types)
validate_auth-specified_example =
    validate_auth-specified env_machine swapped two_types swapped-IsOrder

implicit_static_no_user_example :
    validate_auth env_machine swapped (no_flags "iam.api.cloud.yandex.net")
    ≡ accepted static (record (no_flags "iam.api.cloud.yandex.net") {
      static_auth = record { user = ""; password_file = ""; password = "1234" };
    })
implicit_static_no_user_example =
    implicit_static_no_user env_machine swapped "iam.api.cloud.yandex.net" "root" "1234"
      swapped-IsOrder refl refl refl
