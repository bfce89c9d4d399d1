-- ===== src/Credentials/Init.antt =====
-- pkg/client/auth/credentials: `Init` behind the options that `Validate` of pkg/options/auth.go accepts.
use ydbops.Base.{◌≡◌, refl, Option, none, some, List}
use mathlib.Core.Option as Option
use mathlib.Core.Path.{subst}
use ydbops.Options.Auth.{
  Machine, AuthType, Auths, unset, anonymous, static, iam_token, iam_creds, iam_metadata,
  multiple_at_once, accepted, validate_auth,
}
use ydbops.Options.Auth.Order.{IsOrder}
use ydbops.Options.Auth.Accepted.{IsUsable, IsSound, validate_auth-IsSound}
use ydbops.Credentials.{
  got, InitError, anonymous_unsupported, provider_error, BaseProvider, creds_of, new_provider,
  choose_impl, Services, with_port,
}
use ydbops.Credentials.Providers.{init_impl, init_base}

module _ {ℓ κ} {Packed : Type ℓ} {Error : Type κ} (services : Services Packed Error) where
  -- Why the provider of a type does not start.
  abbrev pub init_error : AuthType → Auths → Option (InitError Error)
  init_error anonymous auths = some anonymous_unsupported
  init_error iam_creds auths =
      Option.map provider_error (
        services.new_iam_client auths.creds_auth.key_filename (with_port auths.creds_auth.endpoint))
  init_error k auths = none

  init_usable :
      (k : AuthType) (auths : Auths)
      → IsUsable k auths
      → (b : BaseProvider Error) × (init_base services (new_provider k (creds_of auths k) none)
          ≡ got (b, init_error k auths))
  unfolding init_base init_impl choose_impl
  init_usable unset auths usable = absurd usable
  init_usable multiple_at_once auths usable = absurd usable
  init_usable anonymous auths usable = (_, refl)
  init_usable static auths usable = (_, refl)
  init_usable iam_token auths usable = (_, refl)
  init_usable iam_creds auths usable = (_, refl)
  init_usable iam_metadata auths usable = (_, refl)

  -- Behind options that `Validate` accepts, the provider of credentials starts with no panic of a type
  -- assertion and no `internal error`: it fails for the type `none`, which has no provider, and where
  -- IAM's package makes no client of the key file and of the endpoint with its port, and in no other case.
  pub init_base_validated :
      (m : Machine) (order : List AuthType → List AuthType) (auths auths' : Auths) (k : AuthType)
      → IsOrder order
      → validate_auth m order auths ≡ accepted k auths'
      → (b : BaseProvider Error) × (init_base services (new_provider k (creds_of auths' k) none)
          ≡ got (b, init_error k auths'))
  init_base_validated m order auths auths' k any e =
      init_usable k auths' (subst IsSound e (validate_auth-IsSound m order auths any))
