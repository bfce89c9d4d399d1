-- ===== src/Connections/Dialed.antt =====
-- What is dialed behind the options that `Validate` of pkg/options/grpc.go accepts.
use ydbops.Base.{
  ℕ, ◌≤◌, ◌≡◌, ◌≢◌, refl, sym, ap, ◌∙◌, inl, inr, Bool, true, false, Bool-cases, not, ◌&&◌, ◌||◌,
  String, Option, none, some, arith, ◌==◌, text_comparable, eq_of_==,
}
use mathlib.Core.Path.{subst}
use Prim.Native.String
use ydbops.Base.Text.{itoa}
use ydbops.Base.Int.{ℤ, pos, negsuc, ltb_ℤ}
use ydbops.Rolling.Actions.{is_negative}
use ydbops.Options.Auth.{Machine, expand_home}
use ydbops.Options.Grpc.{
  Grpc, Url, Checked, valid, invalid, ◌>>=◌ as ◌then◌, contains_text, parse_port, check_ca_file,
  check_port, is_secure, with_scheme, with_url, validate_grpc,
}
use ydbops.Connections.{
  Certificates, TransportCredentials, insecure, tls, Created, created, failed, ◌>>=◌ as ◌after◌,
  or_error, no_system_pool, with_ca_file, show_int, endpoint, make_credentials, create,
}

-- What holds of options with an endpoint that `Validate` has accepted, for the URL of the endpoint.
pub record IsDialable (o : Grpc) (url : Url) (o' : Grpc) : Type 0 where
  pub host : o'.endpoint ≡ url.hostname
  pub port_bound : (n : ℕ) × (o'.grpc_port ≡ pos n) × (n ≤ 65536)
  pub scheme : is_secure url.scheme ≡ some o'.grpc_secure
  pub verified : o'.grpc_secure ≡ false → o'.grpc_skip_verify ≡ false
  pub same_skip : o'.grpc_skip_verify ≡ o.grpc_skip_verify

valid-injective {ℓ} : {A : Type ℓ} {a b : A} → valid a ≡ valid b → a ≡ b
valid-injective e = cc

port_in_range :
    (z : ℤ) → (is_negative z || ltb_ℤ (pos 65536) z) ≡ false → (n : ℕ) × (z ≡ pos n) × (n ≤ 65536)
port_in_range (pos n) e = (n, refl, ground arith)
port_in_range (negsuc n) e = cc

check_port-lem :
    (o o' : Grpc) (port : String)
    → check_port o port ≡ valid o'
    → (z : ℤ) × (o' ≡ record o { grpc_port = z }) × ((n : ℕ) × (z ≡ pos n) × (n ≤ 65536))
unfolding check_port
check_port-lem o o' port e = elim (Bool-cases (port == "")) [
  | inl empty ↦ (pos 2135, sym (valid-injective (rw empty at e)), (2135, refl, omega arith))
  | inr given ↦
      elim (Bool-cases (is_negative (parse_port port) || ltb_ℤ (pos 65536) (parse_port port))) [
        | inl out ↦ let e' = rw (given, out) at e in cc
        | inr within ↦ (
          parse_port port,
          sym (valid-injective (rw (given, within) at e)),
          port_in_range (parse_port port) within,
        )
      ]
]

skip_needs_tls : (secure skip : Bool) → (not secure && skip) ≡ false → secure ≡ false → skip ≡ false
skip_needs_tls true skip e plain = cc
skip_needs_tls false skip e plain = e

with_scheme-IsDialable :
    (o o' : Grpc) (url : Url) (secure : Option Bool)
    → is_secure url.scheme ≡ secure
    → with_scheme o url secure ≡ valid o'
    → IsDialable o url o'
with_scheme-IsDialable o o' url none s e = cc
with_scheme-IsDialable o o' url (some secure) s e =
    elim (Bool-cases (not secure && o.grpc_skip_verify)) [
      | inl bad ↦ let e' = rw bad at e in cc
      | inr fine ↦
          let (z, same, (n, is_n, bound)) =
            check_port-lem (record o { grpc_secure = secure; endpoint = url.hostname }) o' url.port
              (rw fine at e) in
          record {
            host = ap (λ p. p.endpoint) same;
            port_bound = (n, ap (λ p. p.grpc_port) same ∙ is_n, bound);
            scheme = s ∙ ap some (sym (ap (λ p. p.grpc_secure) same));
            verified = λ plain.
                ap (λ p. p.grpc_skip_verify) same
                ∙ skip_needs_tls secure o.grpc_skip_verify fine
                    (sym (ap (λ p. p.grpc_secure) same) ∙ plain);
            same_skip = ap (λ p. p.grpc_skip_verify) same;
          }
    ]

with_url-IsDialable :
    (o o' : Grpc) (found : Option Url)
    → with_url o found ≡ valid o'
    → (url : Url) × (found ≡ some url) × IsDialable o url o'
with_url-IsDialable o o' none e = cc
with_url-IsDialable o o' (some url) e =
    (url, refl, with_scheme-IsDialable o o' url (is_secure url.scheme) refl e)

then-valid {ℓ κ} :
    {A : Type ℓ} {B : Type κ} (o : Checked A) (f : A → Checked B) {b : B}
    → ◌then◌ o f ≡ valid b
    → (a : A) × (o ≡ valid a) × (f a ≡ valid b)
then-valid (valid a) f e = (a, refl, e)
then-valid (invalid err) f e = cc

-- The file of certificates is the only option that changes.
check_ca_file-same :
    (m : Machine) (o o' : Grpc)
    → check_ca_file m o ≡ valid o'
    → (o'.endpoint ≡ o.endpoint) × (o'.grpc_skip_verify ≡ o.grpc_skip_verify)
unfolding check_ca_file
check_ca_file-same m o o' e = elim (Bool-cases (o.ca_file == "")) [
  | inl unnamed ↦
      let same = valid-injective (rw unnamed at e) in
      (sym (ap (λ p. p.endpoint) same), sym (ap (λ p. p.grpc_skip_verify) same))
  | inr named ↦ elim (Bool-cases (contains_text o.endpoint "grpcs")) [
    | inr plain ↦ let e' = rw (named, plain) at e in cc
    | inl secure ↦ elim (Bool-cases (m.exists (expand_home m o.ca_file))) [
      | inr missing ↦ let e' = rw (named, secure, missing) at e in cc
      | inl there ↦
          let same = valid-injective (rw (named, secure, there) at e) in
          (sym (ap (λ p. p.endpoint) same), sym (ap (λ p. p.grpc_skip_verify) same))
    ]
  ]
]

validate_grpc-IsDialable :
    (m : Machine) (parse_url : String → Option Url) (o o' : Grpc)
    → validate_grpc m parse_url o ≡ valid o'
    → o.endpoint ≢ ""
    → (url : Url) × (parse_url o.endpoint ≡ some url) × IsDialable o url o'
unfolding validate_grpc
validate_grpc-IsDialable m parse_url o o' e given =
    let (o₁, checked, e₁) = then-valid (check_ca_file m o) _ e in
    let (host, skip) = check_ca_file-same m o o₁ checked in
    elim (Bool-cases (is_negative o₁.timeout_seconds)) [
      | inl negative ↦ let e₂ = rw negative at e₁ in cc
      | inr fine ↦ elim (Bool-cases (o₁.endpoint == "")) [
        | inl empty ↦ absurd (given (sym host ∙ eq_of_== o₁.endpoint "" empty))
        | inr endpoint ↦
            let (url, found, h) =
              with_url-IsDialable o₁ o' (parse_url o₁.endpoint) (rw (fine, endpoint) at e₁) in
            (
              url,
              subst (λ s. parse_url s ≡ some url) host found,
              record {
                host = h.host;
                port_bound = h.port_bound;
                scheme = h.scheme;
                verified = h.verified;
                same_skip = h.same_skip ∙ skip;
              },
            )
      ]
    ]

create-then {ℓ κ} :
    {A : Type ℓ} {B : Type κ} (o : Created A) (f : A → Created B) {b : B}
    → ◌after◌ o f ≡ created b
    → (a : A) × (o ≡ created a) × (f a ≡ created b)
create-then (created a) f e = (a, refl, e)
create-then (failed err) f e = cc

created-injective {ℓ} : {A : Type ℓ} {a b : A} → created a ≡ created b → a ≡ b
created-injective e = cc

secure_grpcs : (scheme : String) → scheme ≡ "grpcs" → is_secure scheme ≡ some true
secure_grpcs scheme e = rw e refl

plain_grpc : (scheme : String) → scheme ≡ "grpc" → is_secure scheme ≡ some false
plain_grpc scheme e = rw e refl

some-injective : {a b : Bool} → some a ≡ some b → a ≡ b
some-injective e = cc

module _ {ℓ} {Pool : Type ℓ} (m : Machine) (certs : Certificates Pool) where
  create-dialed :
      (o : Grpc) (target : String) (credentials : TransportCredentials Pool)
      → create m certs o ≡ created (target, credentials)
      → (target ≡ endpoint o) × (make_credentials m certs o ≡ created credentials)
  unfolding create
  create-dialed o target credentials e =
      let (cr, made, e₁) = create-then (make_credentials m certs o) _ e in
      elim (Bool-cases (o.endpoint == "")) [
        | inl empty ↦ let e₂ = rw empty at e₁ in cc
        | inr given ↦
            let same = created-injective (rw given at e₁) in
            (sym (ap (λ p. p.0) same), made ∙ ap created (ap (λ p. p.1) same))
      ]

  made_plain :
      (o : Grpc) (credentials : TransportCredentials Pool)
      → make_credentials m certs o ≡ created credentials
      → o.grpc_secure ≡ false
      → credentials ≡ insecure
  unfolding make_credentials
  made_plain o credentials made plain = sym (created-injective (rw plain at made))

  made_tls :
      (o : Grpc) (credentials : TransportCredentials Pool)
      → make_credentials m certs o ≡ created credentials
      → o.grpc_secure ≡ true
      → (pool : Pool) × (credentials ≡ tls pool o.grpc_skip_verify)
  unfolding make_credentials
  made_tls o credentials made secure =
      let (pool, found, same) =
        create-then
          (◌after◌ (or_error certs.system_pool no_system_pool) (with_ca_file m certs o.ca_file)) _
          (rw secure at made) in
      (pool, sym (created-injective same))

  -- Behind options that `Validate` accepts with an endpoint, a connection goes to the host of the URL and
  -- to a port between 0 and 65536, with no TLS for the scheme `grpc`, and with TLS for `grpcs`; the check
  -- of the server's name is skipped with TLS only, and there just as the flag says.
  pub validated_dial :
      (parse_url : String → Option Url) (o o' : Grpc) (target : String)
      (credentials : TransportCredentials Pool)
      → validate_grpc m parse_url o ≡ valid o'
      → o.endpoint ≢ ""
      → create m certs o' ≡ created (target, credentials)
      → (url : Url) × (port : ℕ) × (parse_url o.endpoint ≡ some url)
        × (target ≡ String.◌++◌ url.hostname (String.◌++◌ ":" (itoa port)))
        × (port ≤ 65536)
        × (url.scheme ≡ "grpc" → (credentials ≡ insecure) × (o.grpc_skip_verify ≡ false))
        × (url.scheme ≡ "grpcs" → (pool : Pool) × (credentials ≡ tls pool o.grpc_skip_verify))
  unfolding endpoint
  validated_dial parse_url o o' target credentials accepted given e =
      let (url, found, h) = validate_grpc-IsDialable m parse_url o o' accepted given in
      let (port, is_port, bound) = h.port_bound in
      let (at, made) = create-dialed o' target credentials e in
      (
        url,
        port,
        found,
        at ∙ (λ i. String.◌++◌ (h.host i) (String.◌++◌ ":" (show_int (is_port i)))),
        bound,
        λ plain.
            let p = some-injective (sym h.scheme ∙ plain_grpc url.scheme plain) in
            (made_plain o' credentials made p, sym h.same_skip ∙ h.verified p),
        λ secure.
            let s = some-injective (sym h.scheme ∙ secure_grpcs url.scheme secure) in
            let (pool, is_tls) = made_tls o' credentials made s in
            (pool, is_tls ∙ ap (tls pool) h.same_skip),
      )
