-- ===== src/Options/Restart.antt =====
-- `Validate` of `RestartOptions`, pkg/rolling/options.go. The SSH arguments are the code points of
-- their flag.
use ydbops.Base.{ℕ, String, Bool, Option, List}
use ydbops.Base.Int.{ℤ}
use ydbops.Cluster.{Instant}
use ydbops.Hosts.{parse_ssh_args}
use ydbops.Rolling.Actions.{is_negative}
use ydbops.Options.{
  TargetingOptions, Checked, ◌>>=◌, valid, reject_if, validate_targeting, negative_query_interval,
  negative_retry_number, negative_restart_duration, negative_tenants_inflight,
}

pub record RestartOptions : Type 0 where
  pub targeting : TargetingOptions
  pub restart_retry_number : ℤ
  pub cms_query_interval : ℤ
  pub nodes_inflight : ℤ
  pub tenants_inflight : ℤ
  pub restart_duration : ℤ
  pub delay_between_restarts : ℤ
  pub ssh_args_flag : List ℕ
  pub ssh_args : List (List ℕ)

-- The number of nodes in flight is not looked at.
unfoldable pub validate :
    (String → Option Instant) → (String → Bool) → RestartOptions → Checked RestartOptions
validate parse_time url_parses o = do
  targeting ← validate_targeting parse_time url_parses o.targeting
  o₁ ← reject_if (is_negative o.cms_query_interval) negative_query_interval o
  o₂ ← reject_if (is_negative o.restart_retry_number) negative_retry_number o₁
  o₃ ← reject_if (is_negative o.restart_duration) negative_restart_duration o₂
  o₄ ← reject_if (is_negative o.tenants_inflight) negative_tenants_inflight o₃
  valid (record o₄ { targeting = targeting; ssh_args = parse_ssh_args o₄.ssh_args_flag })
