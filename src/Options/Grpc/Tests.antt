-- ===== src/Options/Grpc/Tests.antt =====
-- Endpoints of both schemes, with and without a port.
use Prim.Native.String
use ydbops.Base.{ℕ, ◌≤◌, ◌≡◌, refl, true, false, String, Option, none, some, text_comparable}
use ydbops.Base.Int.{pos}
use ydbops.Base.Text.{itoa, scan_digits}
use ydbops.Hosts.{atoi}
use ydbops.Options.Auth.{Machine}
use ydbops.Options.Grpc.{
  Grpc, Url, valid, invalid, invalid_port, contains_text, check_ca_file, check_port, validate_grpc,
}
use ydbops.Connections.{
  Certificates, TransportCredentials, insecure, tls, created, endpoint, make_credentials, create,
}
use ydbops.Connections.Dialed.{validated_dial}

abbrev some_machine : Machine
some_machine = record {
  lookup_env = λ name. none;
  read_file = λ path. some "pem";
  exists = λ path. true;
  home_file = λ path. path;
}

abbrev node_tls : TransportCredentials ℕ
node_tls = tls 1 false

abbrev some_certs : Certificates ℕ
some_certs = record { system_pool = some 0; append_certs = λ pool pem. some 1 }

abbrev to_node : String → Option Url
to_node raw = some (record { scheme = "grpcs"; hostname = "node.net"; port = "2136" })

abbrev node_options : Grpc
node_options = record {
  endpoint = "grpcs://node.net:2136";
  ca_file = "ca.pem";
  grpc_secure = false;
  grpc_port = pos 0;
  grpc_skip_verify = false;
  timeout_seconds = pos 60;
}

abbrev node_validated : Grpc
node_validated = record node_options {
  endpoint = "node.net";
  grpc_secure = true;
  grpc_port = pos 2136;
}

contains_test : contains_text "grpcs://node.net" "grpcs" ≡ true
contains_test = refl

-- The ports at both ends of what is taken.
last_port : check_port node_options "65536" ≡ valid (record node_options { grpc_port = pos 65536 })
unfolding check_port atoi scan_digits
last_port = refl

zero_port : check_port node_options "0" ≡ valid (record node_options { grpc_port = pos 0 })
unfolding check_port atoi scan_digits
zero_port = refl

large_port : check_port node_options "65537" ≡ invalid invalid_port
unfolding check_port atoi scan_digits
large_port = refl

accepted_node : validate_grpc some_machine to_node node_options ≡ valid node_validated
unfolding validate_grpc check_ca_file check_port atoi scan_digits
accepted_node = refl

created_node : create some_machine some_certs node_validated ≡ created ("node.net:2136", node_tls)
unfolding create make_credentials endpoint itoa
created_node = refl

validated_dial_example :
    (url : Url) × (port : ℕ) × (to_node "grpcs://node.net:2136" ≡ some url)
    × ("node.net:2136" ≡ String.◌++◌ url.hostname (String.◌++◌ ":" (itoa port)))
    × (port ≤ 65536)
    × (url.scheme ≡ "grpc" → (node_tls ≡ insecure) × (false ≡ false))
    × (url.scheme ≡ "grpcs" → (pool : ℕ) × (node_tls ≡ tls pool false))
validated_dial_example =
    validated_dial some_machine some_certs to_node node_options node_validated "node.net:2136"
      node_tls accepted_node (λ e. cc) created_node
