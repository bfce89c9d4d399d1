-- ===== src/Options.antt =====
-- pkg/options/targeting.go: the options that select nodes and their `Validate`. The flags that are
-- still text, `--started` and `--version`, are fields; parsing of times and URLs is a parameter.
pub mod Restart
pub mod Duration
pub mod Valid
pub mod Auth
pub mod Grpc
mod Tests
use Prim.Native.String
use Prim.Native.Char.{code}
use ydbops.Base.{
  ℕ, String, Bool, true, false, not, ◌&&◌, ◌||◌, Option, none, some, List, [], ◌∷◌, ◌==◌,
  if◌then◌else◌, num_comparable, text_comparable,
}
use ydbops.Base.Int.{ℤ, pos, negsuc}
use ydbops.Collections.{contains}
use ydbops.Cluster.{Instant}
use ydbops.Hosts.{get_node_ids, get_node_fqdns}
use ydbops.Restarters.Primitives.{StartedTime, is_empty}
use ydbops.Rolling.Actions.{is_negative}
use ydbops.Rolling.Start.{both_failed}
use ydbops.Versions.{VersionSpec, parse_version_flag}

pub record TargetingOptions : Type 0 where
  pub availability_mode : String
  pub hosts : List String
  pub started_flag : String
  pub version_flag : String
  pub started_time : Option StartedTime
  pub version_spec : Option VersionSpec
  pub tenant : Bool
  pub tenant_list : List String
  pub kubeconfig_path : String
  pub k8s_namespace : String
  pub max_static_node_id : ℤ

abbrev pub availability_modes : List String
availability_modes = "strong" ∷ "weak" ∷ "force" ∷ "smart" ∷ []

pub data OptionError : Type 0 where
  unknown_availability_mode no_k8s_namespace negative_max_static_node_id : OptionError
  tenant_not_specified started_without_direction started_not_parsed version_not_parsed : OptionError
  hosts_not_parsed negative_query_interval negative_retry_number : OptionError
  negative_restart_duration negative_tenants_inflight : OptionError

pub data Checked {ℓ} (A : Type ℓ) : Type ℓ where
  valid : A → Checked A
  invalid : OptionError → Checked A

infixl 5 ◌>>=◌
abbrev pub ◌>>=◌ {ℓ κ} : {A : Type ℓ} {B : Type κ} → Checked A → (A → Checked B) → Checked B
valid a >>= f = f a
invalid e >>= f = invalid e

-- An error where the condition holds.
abbrev pub reject_if {ℓ} : {A : Type ℓ} → Bool → OptionError → A → Checked A
reject_if b e a = if b then invalid e else valid a

abbrev pub with_started : TargetingOptions → ℕ → Option Instant → Checked TargetingOptions
with_started o direction none = invalid started_not_parsed
with_started o direction (some t) =
    valid (record o { started_time = some (record { timestamp = t; direction = direction }) })

-- The direction is the first rune of the flag, and the time is the rest.
abbrev pub parse_started :
    (String → Option Instant) → TargetingOptions → String → Checked TargetingOptions
parse_started parse_time o String.[] = valid o
parse_started parse_time o (String.◌∷◌ c rest) =
    if not (code c == b'<') && not (code c == b'>')
    then invalid started_without_direction
    else with_started o (code c) (parse_time rest)

abbrev pub with_version : TargetingOptions → Option VersionSpec → Checked TargetingOptions
with_version o none = invalid version_not_parsed
with_version o (some spec) = valid (record o { version_spec = some spec })

abbrev pub parse_version : TargetingOptions → Checked TargetingOptions
parse_version o =
    if o.version_flag == "" then valid o else with_version o (parse_version_flag o.version_flag)

module _ (parse_time : String → Option Instant) (url_parses : String → Bool) where
  unfoldable pub validate_targeting : TargetingOptions → Checked TargetingOptions
  validate_targeting o = do
    o₁ ←
        reject_if (not (contains availability_modes o.availability_mode)) unknown_availability_mode
          o
    o₂ ← reject_if (not (o.kubeconfig_path == "") && o.k8s_namespace == "") no_k8s_namespace o₁
    o₃ ← reject_if (is_negative o.max_static_node_id) negative_max_static_node_id o₂
    o₄ ← reject_if (not (is_empty o.tenant_list) && not o.tenant) tenant_not_specified o₃
    o₅ ← parse_started parse_time o₄ o₄.started_flag
    o₆ ← parse_version o₅
    reject_if (both_failed (get_node_ids o₆.hosts) (get_node_fqdns url_parses o₆.hosts))
        hosts_not_parsed o₆
