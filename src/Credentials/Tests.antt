-- ===== src/Credentials/Tests.antt =====
-- A static user that logs in once, behind options from the environment.
use ydbops.Base.{ℕ, zero, ◌≡◌, refl, String, true, none, some, All-Memᴰ, Memᴰ}
use ydbops.Retries.{success}
use ydbops.Cms.{unpacked}
use ydbops.Discovery.{Invocation, replied, no_connection, failed_with, execute_discovery_method}
use ydbops.Options.Auth.{
  Machine, Auths, iam_creds, static, accepted, validate_auth, explicit_keys, validate_iam_creds,
  validate_as, determine_explicit_auth_type,
}
use ydbops.Options.Auth.Order.{IsOrder}
use ydbops.Options.Auth.Accepted.{no_flags}
use ydbops.Credentials.{
  got, BaseProvider, creds_of, static_creds, new_provider, choose_impl, Services, provider_error,
}
use ydbops.Credentials.Providers.{auth, init_impl, init_base, get_token_impl, get_token}
use ydbops.Credentials.Init.{init_base_validated}
use ydbops.Credentials.Token.{told_again, get_token_again}

abbrev flaky_login : ℕ → String → String → Invocation String String
flaky_login zero user password = no_connection "down"
flaky_login _ user password = replied (some (record { status = success; result = "token" }))

-- The first `Login` has no connection, and the second would succeed.
abbrev flaky_services : Services String String
flaky_services = record {
  new_iam_client = λ key endpoint. some endpoint;
  iam_token_of = λ key endpoint. ("iam", none);
  metadata_token = ("metadata", none);
  given_init = none;
  given_token = ("given", none);
  login = flaky_login;
  can_slice = λ token. true;
  unpack_login = λ token. unpacked token;
}

-- Every `Login` succeeds.
abbrev steady_services : Services String String
steady_services = record flaky_services {
  login = λ n user password. replied (some (record { status = success; result = "token" }));
}

abbrev root_provider : BaseProvider String
root_provider =
    new_provider static
      (some (static_creds (record { user = "root"; password_file = ""; password = "1234" }))) none

root_failed :
    (b : BaseProvider String) × (get_token flaky_services root_provider
      ≡ got (b, ("", some (failed_with "down"))))
unfolding get_token get_token_impl init_base init_impl choose_impl auth execute_discovery_method
root_failed = (_, refl)

get_token_again_example :
    get_token steady_services root_failed.0
    ≡ got (
      root_failed.0,
      told_again steady_services root_failed.0.impl ("", some (failed_with "down")),
    )
get_token_again_example =
    get_token_again flaky_services steady_services root_provider root_failed.0
      ("", some (failed_with "down")) root_failed.1

abbrev key_machine : Machine
key_machine = record {
  lookup_env = λ name. none;
  read_file = λ path. none;
  exists = λ path. true;
  home_file = λ path. path;
}

abbrev key_flags : Auths
key_flags = record (no_flags "iam.net") {
  creds_auth = record { key_filename = "sa.json"; endpoint = "iam.net" };
}

key_accepted : validate_auth key_machine (λ keys. keys) key_flags ≡ accepted iam_creds key_flags
unfolding validate_auth determine_explicit_auth_type explicit_keys validate_as validate_iam_creds
key_accepted = refl

same_order : IsOrder (λ keys. keys)
same_order keys = (refl, All-Memᴰ (λ k. Memᴰ k keys) keys (λ k m. m))

init_base_validated_example :
    (b : BaseProvider String) × (init_base flaky_services
        (new_provider iam_creds (creds_of key_flags iam_creds) none)
      ≡ got (b, some (provider_error "iam.net:443")))
init_base_validated_example =
    init_base_validated flaky_services key_machine (λ keys. keys) key_flags key_flags iam_creds
      same_order key_accepted
