-- ===== src/Connections.antt =====
-- pkg/client/connectionsfactory: the endpoint that is dialed, and the credentials of the transport. The
-- pools of certificates of crypto/x509 are a parameter, and so is the dial, of which the model has what
-- it is given.
pub mod Dialed
use Prim.Native.String
use ydbops.Base.{
  suc, String, Bool, true, false, Option, none, some, ◌==◌, if◌then◌else◌, text_comparable,
}
use ydbops.Base.Int.{ℤ, pos, negsuc}
use ydbops.Base.Text.{itoa}
use ydbops.Options.Auth.{Machine}
use ydbops.Options.Grpc.{Grpc}

-- `SystemCertPool` and `AppendCertsFromPEM`.
pub record Certificates {ℓ} (Pool : Type ℓ) : Type ℓ where
  pub system_pool : Option Pool
  pub append_certs : Pool → String → Option Pool

pub data TransportCredentials {ℓ} (Pool : Type ℓ) : Type ℓ where
  insecure : TransportCredentials Pool
  tls : Pool → Bool → TransportCredentials Pool

pub data CreateError : Type 0 where
  no_system_pool ca_file_not_read certs_not_appended no_endpoint : CreateError

pub data Created {ℓ} (A : Type ℓ) : Type ℓ where
  created : A → Created A
  failed : CreateError → Created A

infixl 5 ◌>>=◌
abbrev pub ◌>>=◌ {ℓ κ} : {A : Type ℓ} {B : Type κ} → Created A → (A → Created B) → Created B
created a >>= f = f a
failed err >>= f = failed err

abbrev pub or_error {ℓ} : {A : Type ℓ} → Option A → CreateError → Created A
or_error none err = failed err
or_error (some a) err = created a

abbrev pub show_int : ℤ → String
show_int (pos n) = itoa n
show_int (negsuc n) = String.◌++◌ "-" (itoa (suc n))

-- `%s:%d`
unfoldable pub endpoint : Grpc → String
endpoint o = String.◌++◌ o.endpoint (String.◌++◌ ":" (show_int o.grpc_port))

module _ {ℓ} {Pool : Type ℓ} (m : Machine) (certs : Certificates Pool) where
  abbrev pub with_ca_file : String → Pool → Created Pool
  with_ca_file ca_file pool =
      if ca_file == ""
      then created pool
      else or_error (m.read_file ca_file) ca_file_not_read >>= λ pem.
          or_error (certs.append_certs pool pem) certs_not_appended

  unfoldable pub make_credentials : Grpc → Created (TransportCredentials Pool)
  make_credentials o =
      if o.grpc_secure
      then (or_error certs.system_pool no_system_pool >>= with_ca_file o.ca_file >>= λ pool.
          created (tls pool o.grpc_skip_verify))
      else created insecure

  -- The address and the credentials that `grpc.Dial` is given.
  unfoldable pub create : Grpc → Created (String × TransportCredentials Pool)
  create o = make_credentials o >>= λ credentials.
      if o.endpoint == "" then failed no_endpoint else created (endpoint o, credentials)
