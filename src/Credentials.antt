-- ===== src/Credentials.antt =====
-- pkg/client/auth: auth.go and the providers of credentials. The services, with the clients of the
-- packages that talk to IAM, are parameters; contexts are left out but for the token that they carry,
-- and so are log lines.
pub mod Providers
pub mod Init
pub mod Token
mod Tests
use Prim.Native.String
use Prim.Native.Char.{code}
use ydbops.Base.{
  ℕ, suc, ◌+◌, String, Bool, true, false, Option, none, some, List, ◌==◌, if◌then◌else◌,
  num_comparable,
}
use ydbops.Cms.{Unpacked}
use ydbops.Discovery.{Invocation, CallError}
use ydbops.Options.Auth.{
  AuthType, AuthStatic, AuthIamToken, AuthIamCreds, Auths, unset, anonymous, static, iam_token,
  iam_creds, iam_metadata, multiple_at_once,
}

-- What a call leaves: a value, the end of the process by `Fatal`, or a panic.
pub data Got {ℓ κ} (Fatal : Type ℓ) (A : Type κ) : Type (ℓ ⊔ κ) where
  got : A → Got Fatal A
  fatal : Fatal → Got Fatal A
  panicked : Got Fatal A

infixl 5 ◌>>=◌
abbrev pub ◌>>=◌ {ℓ κ ι} :
    {F : Type ℓ} {A : Type κ} {B : Type ι} → Got F A → (A → Got F B) → Got F B
got a >>= f = f a
fatal err >>= f = fatal err
panicked >>= f = panicked

-- Why `baseProvider.Init` fails.
pub data InitError {ℓ} (Error : Type ℓ) : Type ℓ where
  anonymous_unsupported not_validated : InitError Error
  provider_error : Error → InitError Error

pub record StaticProvider {ℓ} (Error : Type ℓ) : Type ℓ where
  pub user : String
  pub password : String
  pub has_client : Bool
  pub token_done : Bool
  pub token : String
  pub token_err : Option (CallError Error)
  pub logins : ℕ

pub record IamProvider {ℓ} (Error : Type ℓ) : Type ℓ where
  pub keyfile_name : String
  pub iam_endpoint : String
  pub iam_done : Bool
  pub iam_err : Option Error

-- The provider given to `New` is `given_impl`.
pub data Impl {ℓ} (Error : Type ℓ) : Type ℓ where
  static_impl : StaticProvider Error → Impl Error
  token_impl : String → Impl Error
  iam_impl : IamProvider Error → Impl Error
  metadata_impl : Bool → Impl Error
  given_impl : Impl Error

-- `Auth.Creds`, by its dynamic type.
pub data Creds : Type 0 where
  none_creds : Creds
  static_creds : AuthStatic → Creds
  token_creds : AuthIamToken → Creds
  key_creds : AuthIamCreds → Creds
  metadata_creds : Bool → Creds

-- `Auths[authType]`
abbrev pub creds_of : Auths → AuthType → Option Creds
creds_of auths anonymous = some none_creds
creds_of auths static = some (static_creds auths.static_auth)
creds_of auths iam_token = some (token_creds auths.token_auth)
creds_of auths iam_creds = some (key_creds auths.creds_auth)
creds_of auths iam_metadata = some (metadata_creds auths.metadata_enabled)
creds_of auths unset = none
creds_of auths multiple_at_once = none

pub record BaseProvider {ℓ} (Error : Type ℓ) : Type ℓ where
  pub impl : Option (Impl Error)
  pub auth_type : AuthType
  pub creds : Option Creds
  pub done : Bool
  pub init_err : Option (InitError Error)

abbrev pub new_static {ℓ} : {Error : Type ℓ} → String → String → Impl Error
new_static login password = static_impl (record {
  user = login;
  password = password;
  has_client = false;
  token_done = false;
  token = "";
  token_err = none;
  logins = 0;
})

abbrev pub new_iam_creds {ℓ} : {Error : Type ℓ} → String → String → Impl Error
new_iam_creds keyfile_name iam_endpoint = iam_impl (record {
  keyfile_name = keyfile_name;
  iam_endpoint = iam_endpoint;
  iam_done = false;
  iam_err = none;
})

abbrev pub new_provider {ℓ} :
    {Error : Type ℓ} → AuthType → Option Creds → Option (Impl Error) → BaseProvider Error
new_provider k creds impl = record {
  impl = impl;
  auth_type = k;
  creds = creds;
  done = false;
  init_err = none;
}

-- The implementation for a type, an error, or the panic of a type assertion on the credentials.
pub data Chosen {ℓ} (Error : Type ℓ) : Type ℓ where
  chosen : Impl Error → Chosen Error
  refused : InitError Error → Chosen Error
  bad_assertion : Chosen Error

unfoldable pub choose_impl {ℓ} : {Error : Type ℓ} → AuthType → Option Creds → Chosen Error
choose_impl static (some (static_creds a)) = chosen (new_static a.user a.password)
choose_impl static _ = bad_assertion
choose_impl iam_token (some (token_creds a)) = chosen (token_impl a.token)
choose_impl iam_token _ = bad_assertion
choose_impl iam_creds (some (key_creds a)) = chosen (new_iam_creds a.key_filename a.endpoint)
choose_impl iam_creds _ = bad_assertion
choose_impl iam_metadata _ = chosen (metadata_impl false)
choose_impl anonymous _ = refused anonymous_unsupported
choose_impl unset _ = refused not_validated
choose_impl multiple_at_once _ = refused not_validated

abbrev has_colon : String → Bool
has_colon String.[] = false
has_colon (String.◌∷◌ c s) = let rest = has_colon s in if code c == b':' then true else rest

-- Without a colon the endpoint is one part, and takes the port of TLS.
abbrev pub with_port : String → String
with_port iam_endpoint =
    if has_colon iam_endpoint then iam_endpoint else String.◌++◌ iam_endpoint ":443"

-- The services: the client that IAM's package makes of a key file and an endpoint, which may fail; the
-- tokens of that client, of the metadata service and of the provider given; and `Login`, by the number
-- of the call, and whether the runes of a token, as Go stores them, can be sliced to 20.
pub record Services {ℓ κ} (Packed : Type ℓ) (Error : Type κ) : Type (ℓ ⊔ κ) where
  pub new_iam_client : String → String → Option Error
  pub iam_token_of : String → String → String × Option (CallError Error)
  pub metadata_token : String × Option (CallError Error)
  pub given_init : Option Error
  pub given_token : String × Option (CallError Error)
  pub login : ℕ → String → String → Invocation Packed Error
  pub unpack_login : Packed → Unpacked Error String
  pub can_slice : String → Bool

abbrev pub init_iam {ℓ} :
    {Error : Type ℓ} → (String → String → Option Error) → IamProvider Error → IamProvider Error
init_iam new_client p = if p.iam_done then p else record p {
  iam_endpoint = with_port p.iam_endpoint;
  iam_done = true;
  iam_err = new_client p.keyfile_name (with_port p.iam_endpoint);
}
