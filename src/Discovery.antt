-- ===== src/Discovery.antt =====
-- pkg/client/discovery/discovery.go: one call of a service, without retries, and the two operations of
-- the client. pkg/client/auth/auth.go calls its service in the same way.
use ydbops.Base.{String, Option, none, some, List, if◌then◌else◌}
use ydbops.Retries.{Operation, StatusCode}
use ydbops.Cms.{Unpacked, unpacked, malformed, is_success}

-- A call of a service: no connection, an error of the call, or a reply, whose operation may be nil.
pub data Invocation {ℓ κ} (Packed : Type ℓ) (Error : Type κ) : Type (ℓ ⊔ κ) where
  no_connection : Error → Invocation Packed Error
  call_failed : Error → Invocation Packed Error
  replied : Option (Operation Packed) → Invocation Packed Error

pub data CallError {ℓ} (Error : Type ℓ) : Type ℓ where
  failed_with : Error → CallError Error
  bad_status : StatusCode → CallError Error

-- `LogOperation` reads the status of a nil operation.
pub data Called {κ ι} (Error : Type κ) (Out : Type ι) : Type (κ ⊔ ι) where
  called : Out → Called Error Out
  call_error : CallError Error → Called Error Out
  crashed : Called Error Out

abbrev called_with {κ ι} :
    {Error : Type κ} {Out : Type ι} → StatusCode → Unpacked Error Out → Called Error Out
called_with status (malformed err) = call_error (failed_with err)
called_with status (unpacked out) =
    if is_success status then called out else call_error (bad_status status)

module _ {ℓ κ ι} {Packed : Type ℓ} {Error : Type κ} {Out : Type ι} where
  unfoldable pub execute_discovery_method :
      (Packed → Unpacked Error Out) → Invocation Packed Error → Called Error Out
  execute_discovery_method unpack (no_connection err) = call_error (failed_with err)
  execute_discovery_method unpack (call_failed err) = call_error (failed_with err)
  execute_discovery_method unpack (replied none) = crashed
  execute_discovery_method unpack (replied (some op)) = called_with op.status (unpack op.result)

-- The result of `ListEndpoints` is its list, and that of `WhoAmI` its user.
module _ {ℓ κ ι} {Packed : Type ℓ} {Error : Type κ} {Endpoint : Type ι} where
  unfoldable pub list_endpoints :
      (Packed → Unpacked Error (List Endpoint))
      → (String → Invocation Packed Error)
      → String
      → Called Error (List Endpoint)
  list_endpoints unpack service database = execute_discovery_method unpack (service database)

unfoldable pub who_am_i {ℓ κ} :
    {Packed : Type ℓ} {Error : Type κ}
    → (Packed → Unpacked Error String)
    → Invocation Packed Error
    → Called Error String
who_am_i unpack reply = execute_discovery_method unpack reply
