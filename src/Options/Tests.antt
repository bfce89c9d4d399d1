-- ===== src/Options/Tests.antt =====
-- Options that pass `Validate` with a negative number of nodes in flight, and durations of a restart.
use ydbops.Base.{ℕ, ◌+◌, ◌-◌, ◌/◌, ◌≡◌, refl, true, false, none, []}
use ydbops.Base.Int.{ℤ, pos, negsuc, pos_part}
use ydbops.Collections.{contains}
use ydbops.Hosts.{get_node_ids, get_node_fqdns, parse_ssh_args, parse_from}
use ydbops.Options.{TargetingOptions, valid, validate_targeting}
use ydbops.Options.Restart.{RestartOptions, validate}
use ydbops.Options.Duration.{get_restart_duration}
use ydbops.Options.Valid.{Guaranteed, validate_lem}

abbrev strong_options : TargetingOptions
strong_options = record {
  availability_mode = "strong";
  hosts = [];
  started_flag = "";
  version_flag = "";
  started_time = none;
  version_spec = none;
  tenant = false;
  tenant_list = [];
  kubeconfig_path = "";
  k8s_namespace = "";
  max_static_node_id = pos 50000;
}

abbrev negative_inflight : RestartOptions
negative_inflight = record {
  targeting = strong_options;
  restart_retry_number = pos 3;
  cms_query_interval = pos 10;
  nodes_inflight = negsuc 0;
  tenants_inflight = pos 0;
  restart_duration = pos 60;
  delay_between_restarts = pos 1000000000;
  ssh_args_flag = [];
  ssh_args = [];
}

passes : validate (λ text. none) (λ host. true) negative_inflight ≡ valid negative_inflight
unfolding validate validate_targeting contains get_node_ids get_node_fqdns parse_ssh_args parse_from
passes = refl

validate_lem_example : Guaranteed (λ host. true) negative_inflight negative_inflight
validate_lem_example =
    validate_lem (λ text. none) (λ host. true) negative_inflight negative_inflight passes

abbrev ten_inflight : RestartOptions
ten_inflight = record negative_inflight { nodes_inflight = pos 10 }

abbrev rounded_up : ℕ → ℤ → ℤ
rounded_up n m = pos ((n + pos_part m - 1) / pos_part m)

-- Three batches of three minutes and a second.
duration_test : get_restart_duration rounded_up ten_inflight 25 ≡ pos 543000000000
unfolding get_restart_duration
duration_test = refl

-- `Validate` lets a duration pass whose nanoseconds do not fit in 64 bits.
overflow_test :
    get_restart_duration rounded_up
      (record ten_inflight { restart_duration = pos 10000000000; restart_retry_number = pos 1 })
      1
    ≡ negsuc 8446744072709551615
unfolding get_restart_duration
overflow_test = refl
