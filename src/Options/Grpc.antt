-- ===== src/Options/Grpc.antt =====
-- pkg/options/grpc.go: the endpoint and its `Validate`. `url.Parse` is a parameter; its port is digits.
mod Tests
use Prim.Native.String
use Prim.Native.Char.{code}
use ydbops.Base.{
  ℕ, String, Bool, true, false, not, ◌&&◌, ◌||◌, Option, none, some, List, [], ◌∷◌, ◌==◌,
  if◌then◌else◌, ltb, num_comparable, text_comparable,
}
use ydbops.Base.Int.{ℤ, pos, ltb_ℤ, max_int}
use ydbops.Base.Text.{codes, is_digit}
use ydbops.Hosts.{atoi}
use ydbops.Rolling.Actions.{is_negative}
use ydbops.Options.Auth.{Machine, expand_home}

-- `GRPC`, with the endpoint as given until `Validate` leaves the host of it.
pub record Grpc : Type 0 where
  pub endpoint : String
  pub ca_file : String
  pub grpc_secure : Bool
  pub grpc_port : ℤ
  pub grpc_skip_verify : Bool
  pub timeout_seconds : ℤ

-- `Scheme`, `Hostname()` and `Port()` of a parsed URL.
pub record Url : Type 0 where
  pub scheme : String
  pub hostname : String
  pub port : String

pub data GrpcError : Type 0 where
  ca_file_not_secure ca_file_not_found negative_timeout endpoint_not_parsed : GrpcError
  no_protocol skip_verify_insecure invalid_port : GrpcError

pub data Checked {ℓ} (A : Type ℓ) : Type ℓ where
  valid : A → Checked A
  invalid : GrpcError → Checked A

infixl 5 ◌>>=◌
abbrev pub ◌>>=◌ {ℓ κ} : {A : Type ℓ} {B : Type κ} → Checked A → (A → Checked B) → Checked B
valid a >>= f = f a
invalid err >>= f = invalid err

-- `strings.Contains`
abbrev starts_with : String → String → Bool
starts_with s String.[] = true
starts_with String.[] (String.◌∷◌ p ps) = false
starts_with (String.◌∷◌ c s) (String.◌∷◌ p ps) =
    let rest = starts_with s ps in code c == code p && rest

abbrev pub contains_text : String → String → Bool
contains_text String.[] part = starts_with "" part
contains_text (String.◌∷◌ c s) part =
    let rest = contains_text s part in starts_with (String.◌∷◌ c s) part || rest

abbrev digits_only : List ℕ → Bool
digits_only [] = true
digits_only (c ∷ cs) = is_digit c && digits_only cs

-- `port, _ := strconv.Atoi(...)`: the value stays at the largest `int` where the digits are too many.
abbrev pub port_value : Option ℤ → String → ℤ
port_value (some value) text = value
port_value none text = if digits_only (codes text) then pos max_int else pos 0

abbrev pub parse_port : String → ℤ
parse_port text = port_value (atoi (codes text)) text

unfoldable pub check_ca_file : Machine → Grpc → Checked Grpc
check_ca_file m o =
    if o.ca_file == ""
    then valid o
    else if contains_text o.endpoint "grpcs"
    then (if m.exists (expand_home m o.ca_file)
        then valid (record o { ca_file = expand_home m o.ca_file })
        else invalid ca_file_not_found)
    else invalid ca_file_not_secure

unfoldable pub check_port : Grpc → String → Checked Grpc
check_port o port =
    if port == ""
    then valid (record o { grpc_port = pos 2135 })
    else if is_negative (parse_port port) || ltb_ℤ (pos 65536) (parse_port port)
    then invalid invalid_port
    else valid (record o { grpc_port = parse_port port })

-- `some true` for grpcs, `some false` for grpc.
abbrev pub is_secure : String → Option Bool
is_secure scheme =
    if scheme == "grpcs" then some true else if scheme == "grpc" then some false else none

abbrev pub with_scheme : Grpc → Url → Option Bool → Checked Grpc
with_scheme o url none = invalid no_protocol
with_scheme o url (some secure) =
    if not secure && o.grpc_skip_verify
    then invalid skip_verify_insecure
    else check_port (record o { grpc_secure = secure; endpoint = url.hostname }) url.port

abbrev pub with_url : Grpc → Option Url → Checked Grpc
with_url o none = invalid endpoint_not_parsed
with_url o (some url) = with_scheme o url (is_secure url.scheme)

unfoldable pub validate_grpc : Machine → (String → Option Url) → Grpc → Checked Grpc
validate_grpc m parse_url o = check_ca_file m o >>= λ o'.
    if is_negative o'.timeout_seconds
    then invalid negative_timeout
    else if o'.endpoint == ""
    then valid o'
    else with_url o' (parse_url o'.endpoint)
