-- ===== src/Credentials/Providers.antt =====
-- pkg/client/auth: `Auth`, and what the providers of credentials do.
use ydbops.Base.{ℕ, suc, String, Bool, true, Option, none, some, if◌then◌else◌}
use mathlib.Core.Option as Option
use ydbops.Discovery.{CallError, Called, called, call_error, crashed, execute_discovery_method}
use ydbops.Credentials.{
  Got, got, fatal, panicked, ◌>>=◌, InitError, provider_error, StaticProvider, IamProvider, Impl,
  static_impl, token_impl, iam_impl, metadata_impl, given_impl, BaseProvider, Chosen, chosen,
  refused, bad_assertion, choose_impl, Services, init_iam,
}

-- `Token()` and its error. A call asks the services as they are at that time.
-- The log line of `Auth` slices the first 20 runes of a token, which panics where the slice has no room.
abbrev pub TokenReply {ℓ} : Type ℓ → Type ℓ
TokenReply Error = String × Option (CallError Error)

abbrev pub token_of_login {ℓ} :
    {Error : Type ℓ}
    → (String → Bool)
    → Called Error String
    → Got (InitError Error) (TokenReply Error)
token_of_login can_slice (called token) = if can_slice token then got (token, none) else panicked
token_of_login can_slice (call_error err) = got ("", some err)
token_of_login can_slice crashed = panicked

abbrev pub init_static {ℓ} : {Error : Type ℓ} → StaticProvider Error → StaticProvider Error
init_static p = record p { has_client = true }

abbrev pub init_metadata : Bool → Bool
init_metadata made = true

abbrev pub token_of_text {ℓ} : {Error : Type ℓ} → String → TokenReply Error
token_of_text token = (token, none)

abbrev pub keep_token {ℓ} :
    {Error : Type ℓ} → StaticProvider Error → TokenReply Error → StaticProvider Error
keep_token p (token, err) = record p {
  token_done = true;
  token = token;
  token_err = err;
  logins = suc p.logins;
}

module _ {ℓ κ} {Packed : Type ℓ} {Error : Type κ} (services : Services Packed Error) where
  unfoldable pub auth : ℕ → String → String → Got (InitError Error) (TokenReply Error)
  auth n user password =
      token_of_login services.can_slice
        (execute_discovery_method services.unpack_login (services.login n user password))

  -- `Init` of each provider.
  unfoldable pub init_impl : Impl Error → Impl Error × Option Error
  init_impl (static_impl p) = (static_impl (init_static p), none)
  init_impl (token_impl token) = (token_impl token, none)
  init_impl (iam_impl p) = let p' = init_iam services.new_iam_client p in (iam_impl p', p'.iam_err)
  init_impl (metadata_impl made) = (metadata_impl (init_metadata made), none)
  init_impl given_impl = (given_impl, services.given_init)

  abbrev pub chosen_init :
      BaseProvider Error
      → Chosen Error
      → Got (InitError Error) (BaseProvider Error × Option (InitError Error))
  chosen_init b bad_assertion = panicked
  chosen_init b (refused err) = got (record b { done = true; init_err = some err }, some err)
  chosen_init b (chosen impl) =
      let (impl', err) = init_impl impl in
      let err' = Option.map provider_error err in
      got (record b { impl = some impl'; done = true; init_err = err' }, err')

  -- A provider that was given is not initialized.
  abbrev pub first_init :
      BaseProvider Error
      → Option (Impl Error)
      → Got (InitError Error) (BaseProvider Error × Option (InitError Error))
  first_init b (some impl) = got (record b { done = true }, b.init_err)
  first_init b none = chosen_init b (choose_impl b.auth_type b.creds)

  unfoldable pub init_base :
      BaseProvider Error → Got (InitError Error) (BaseProvider Error × Option (InitError Error))
  init_base b = if b.done then got (b, b.init_err) else first_init b b.impl

  -- The client is nil before `Init`.
  abbrev pub static_token :
      StaticProvider Error → Got (InitError Error) (StaticProvider Error × TokenReply Error)
  static_token p =
      if p.token_done
      then got (p, (p.token, p.token_err))
      else if p.has_client
      then auth p.logins p.user p.password >>= (λ reply. got (keep_token p reply, reply))
      else panicked

  -- The credentials are nil before `Init`.
  abbrev pub token_of_iam : IamProvider Error → Got (InitError Error) (TokenReply Error)
  token_of_iam p =
      if p.iam_done then got (services.iam_token_of p.keyfile_name p.iam_endpoint) else panicked

  abbrev pub token_of_metadata : Bool → Got (InitError Error) (TokenReply Error)
  token_of_metadata made = if made then got services.metadata_token else panicked

  unfoldable pub get_token_impl : Impl Error → Got (InitError Error) (Impl Error × TokenReply Error)
  get_token_impl (static_impl p) = static_token p >>= λ (p', reply). got (static_impl p', reply)
  get_token_impl (token_impl token) = got (token_impl token, token_of_text token)
  get_token_impl (iam_impl p) = token_of_iam p >>= λ reply. got (iam_impl p, reply)
  get_token_impl (metadata_impl made) =
      token_of_metadata made >>= λ reply. got (metadata_impl made, reply)
  get_token_impl given_impl = got (given_impl, services.given_token)

  abbrev pub token_of_impl :
      BaseProvider Error
      → Option (Impl Error)
      → Got (InitError Error) (BaseProvider Error × TokenReply Error)
  token_of_impl b none = panicked
  token_of_impl b (some impl) =
      get_token_impl impl >>= λ (impl', reply). got (record b { impl = some impl' }, reply)

  abbrev pub token_after_init :
      BaseProvider Error × Option (InitError Error)
      → Got (InitError Error) (BaseProvider Error × TokenReply Error)
  token_after_init (b, some err) = fatal err
  token_after_init (b, none) = token_of_impl b b.impl

  unfoldable pub get_token :
      BaseProvider Error → Got (InitError Error) (BaseProvider Error × TokenReply Error)
  get_token b = init_base b >>= token_after_init

  -- The token that the context carries: an error of `GetToken` is not looked at.
  unfoldable pub context_with_auth :
      BaseProvider Error → Got (InitError Error) (BaseProvider Error × String)
  context_with_auth b = get_token b >>= λ (b', reply). got (b', reply.0)
