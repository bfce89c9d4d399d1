-- ===== src/Credentials/Token.antt =====
-- pkg/client/auth/credentials: what `sync.Once` keeps.
use ydbops.Base.{◌≡◌, refl, sym, ap, ◌∙◌, true, false, Bool-cases, inl, inr, Option, none, some}
use mathlib.Core.Path.{subst}
use ydbops.Credentials.{
  Got, got, fatal, panicked, ◌>>=◌, InitError, StaticProvider, Impl, static_impl, token_impl,
  iam_impl, metadata_impl, given_impl, BaseProvider, Chosen, chosen, refused, bad_assertion,
  choose_impl, Services,
}
use ydbops.Credentials.Providers.{
  TokenReply, auth, chosen_init, first_init, init_base, keep_token, static_token, get_token_impl,
  token_of_impl, token_after_init, get_token,
}

bind-got {ℓ κ ι} :
    {F : Type ℓ} {A : Type κ} {B : Type ι} (o : Got F A) (f : A → Got F B) {b : B}
    → o >>= f ≡ got b
    → (a : A) × (o ≡ got a) × (f a ≡ got b)
bind-got (got a) f e = (a, refl, e)
bind-got (fatal err) f e = cc
bind-got panicked f e = cc

got-injective {ℓ κ} :
    {F : Type ℓ} {A : Type κ} {a b : A} → (◌≡◌ {A = Got F A} (got a) (got b)) → a ≡ b
got-injective e = cc

module _ {ℓ κ} {Packed : Type ℓ} {Error : Type κ} where
  -- The token of a later call, where the services may answer in another way: a static user and a given
  -- token keep what they had, and the services of the others are asked again.
  abbrev pub told_later : Services Packed Error → Impl Error → TokenReply Error → TokenReply Error
  told_later later (static_impl p) reply = reply
  told_later later (token_impl token) reply = reply
  told_later later (iam_impl p) reply = later.iam_token_of p.keyfile_name p.iam_endpoint
  told_later later (metadata_impl made) reply = later.metadata_token
  told_later later given_impl reply = later.given_token

  abbrev pub told_again :
      Services Packed Error → Option (Impl Error) → TokenReply Error → TokenReply Error
  told_again later none reply = reply
  told_again later (some impl) reply = told_later later impl reply

module _ {ℓ κ} {Packed : Type ℓ} {Error : Type κ} (services later : Services Packed Error) where
  chosen_init-done :
      (b b' : BaseProvider Error) (c : Chosen Error) (err : Option (InitError Error))
      → chosen_init services b c ≡ got (b', err)
      → (b'.done ≡ true) × (b'.init_err ≡ err)
  chosen_init-done b b' bad_assertion err e = cc
  chosen_init-done b b' (refused why) err e =
      let e' = got-injective e in
      (sym (ap (λ p. p.0.done) e'), sym (ap (λ p. p.0.init_err) e') ∙ ap (λ p. p.1) e')
  chosen_init-done b b' (chosen impl) err e =
      let e' = got-injective e in
      (sym (ap (λ p. p.0.done) e'), sym (ap (λ p. p.0.init_err) e') ∙ ap (λ p. p.1) e')

  first_init-done :
      (b b' : BaseProvider Error) (impl : Option (Impl Error)) (err : Option (InitError Error))
      → first_init services b impl ≡ got (b', err)
      → (b'.done ≡ true) × (b'.init_err ≡ err)
  first_init-done b b' none err e = chosen_init-done b b' (choose_impl b.auth_type b.creds) err e
  first_init-done b b' (some impl) err e =
      let e' = got-injective e in
      (sym (ap (λ p. p.0.done) e'), sym (ap (λ p. p.0.init_err) e') ∙ ap (λ p. p.1) e')

  init_base-done :
      (b b' : BaseProvider Error) (err : Option (InitError Error))
      → init_base services b ≡ got (b', err)
      → (b'.done ≡ true) × (b'.init_err ≡ err)
  unfolding init_base
  init_base-done b b' err e = elim (Bool-cases b.done) [
    | inl was ↦
        let e' = got-injective (rw was at e) in
        (sym (ap (λ p. p.0.done) e'), sym (ap (λ p. p.0.init_err) e') ∙ ap (λ p. p.1) e')
    | inr new ↦ first_init-done b b' b.impl err (rw new at e)
  ]

  static_token_again :
      (p p' : StaticProvider Error) (reply : TokenReply Error)
      → static_token services p ≡ got (p', reply)
      → static_token later p' ≡ got (p', reply)
  static_token_again p p' reply e = elim (Bool-cases p.token_done) [
    | inl was ↦ subst (λ x. static_token later x.0 ≡ got x) (got-injective (rw was at e)) refl
    | inr new ↦ elim (Bool-cases p.has_client) [
      | inl has ↦
          let (first, logged, kept) =
            bind-got (auth services p.logins p.user p.password)
              (λ r. got (keep_token (record p { has_client = true }) r, r)) (rw (new, has) at e) in
          subst (λ x. static_token later x.0 ≡ got x) (got-injective kept) refl
      | inr lacks ↦ let e' = rw (new, lacks) at e in cc
    ]
  ]

  get_token_impl_again :
      (impl impl' : Impl Error) (reply : TokenReply Error)
      → get_token_impl services impl ≡ got (impl', reply)
      → get_token_impl later impl' ≡ got (impl', told_later later impl' reply)
  unfolding get_token_impl
  get_token_impl_again (static_impl p) impl' reply e =
      let ((p', r), told, kept) =
        bind-got (static_token services p) (λ x. got (static_impl x.0, x.1)) e in
      subst (λ x. get_token_impl later x.0 ≡ got (x.0, told_later later x.0 x.1))
        (got-injective kept) (rw (static_token_again p p' r told) refl)
  get_token_impl_again (token_impl token) impl' reply e =
      subst (λ x. get_token_impl later x.0 ≡ got (x.0, told_later later x.0 x.1)) (got-injective e)
        refl
  get_token_impl_again (iam_impl p) impl' reply e = elim (Bool-cases p.iam_done) [
    | inl was ↦
        subst (λ x. get_token_impl later x.0 ≡ got (x.0, told_later later x.0 x.1))
          (got-injective (rw was at e)) refl
    | inr new ↦ let e' = rw new at e in cc
  ]
  get_token_impl_again (metadata_impl true) impl' reply e =
      subst (λ x. get_token_impl later x.0 ≡ got (x.0, told_later later x.0 x.1)) (got-injective e)
        refl
  get_token_impl_again (metadata_impl false) impl' reply e = cc
  get_token_impl_again given_impl impl' reply e =
      subst (λ x. get_token_impl later x.0 ≡ got (x.0, told_later later x.0 x.1)) (got-injective e)
        refl

  -- A provider that has started, with an implementation that has its token.
  started_again :
      (b : BaseProvider Error) (impl : Impl Error) (reply : TokenReply Error)
      → b.done ≡ true
      → b.init_err ≡ none
      → get_token_impl later impl ≡ got (impl, reply)
      → get_token later (record b { impl = some impl }) ≡ got (record b { impl = some impl }, reply)
  unfolding get_token init_base
  started_again b impl reply over fine e =
      let started : (record b { impl = some impl; done = true; init_err = none })
          ≡ record b { impl = some impl } =
        λ i. record b { impl = some impl; done = sym over i; init_err = sym fine i } in
      subst (λ q. get_token later q ≡ got (q, reply)) started (rw e refl)

  token_of_impl_again :
      (b b' : BaseProvider Error) (impl : Option (Impl Error)) (reply : TokenReply Error)
      → b.done ≡ true
      → b.init_err ≡ none
      → token_of_impl services b impl ≡ got (b', reply)
      → get_token later b' ≡ got (b', told_again later b'.impl reply)
  unfolding get_token init_base
  token_of_impl_again b b' none reply over fine e = cc
  token_of_impl_again b b' (some impl) reply over fine e =
      let ((impl', r), told, kept) =
        bind-got (get_token_impl services impl) (λ x. got (record b { impl = some x.0 }, x.1)) e in
      subst (λ x. get_token later x.0 ≡ got (x.0, told_again later x.0.impl x.1))
        (got-injective kept)
        (started_again b impl' (told_later later impl' r) over fine
          (get_token_impl_again impl impl' r told))

  -- Once `GetToken` has returned, later calls change nothing, whatever the services answer then: nothing
  -- is initialized again, and a static user does not log in again but gets the same token and error,
  -- whether the login succeeded or not; a given token stays too. The providers of IAM, of the metadata
  -- and the given one are asked for their token again.
  pub get_token_again :
      (b b' : BaseProvider Error) (reply : TokenReply Error)
      → get_token services b ≡ got (b', reply)
      → get_token later b' ≡ got (b', told_again later b'.impl reply)
  unfolding get_token
  get_token_again b b' reply e =
      let ((i, err), started, told) =
        bind-got (init_base services b) (token_after_init services) e in
      again i err (init_base-done b i err started) told
    where
      again :
          (i : BaseProvider Error) (err : Option (InitError Error))
          → (i.done ≡ true) × (i.init_err ≡ err)
          → token_after_init services (i, err) ≡ got (b', reply)
          → get_token later b' ≡ got (b', told_again later b'.impl reply)
      again i (some why) kept told = cc
      again i none (over, fine) told = token_of_impl_again i b' i.impl reply over fine told
