-- ===== src/Rolling/Scenarios.antt =====
-- The loop that waits for CMS, the start of a restart, the counting of retries and the check of
-- versions, at concrete inputs.
use ydbops.Base.{
  ◌+◌, ◌≡◌, refl, ◌↔◌, String, Bool, true, false, none, some, List, [], ◌∷◌, ◌++◌, length, ◌==◌,
  num_comparable, text_comparable, if◌then◌else◌, ℕ, ◌⊎◌,
}
use ydbops.Collections.{filter_by, get, put, map_contains, contains, values, to_map}
use ydbops.Cluster.{Node}
use ydbops.Hosts.{get_node_ids, get_node_fqdns}
use ydbops.Restarters.{run, filter, filter_storage}
use ydbops.Restarters.Primitives.{
  exclude_by_common_fields, common_loop, populate_by_common_fields,
  is_inclusive_filtering_unspecified, filter_storage_nodes, keeps,
}
use ydbops.Rolling.State.{State, retries_of}
use ydbops.Rolling.Retries.{failures, finishes, handled, last_status}
use ydbops.Rolling.Pass.{uids}
use ydbops.Rolling.Compat.{nodes_are, compatible, try_detect_compatibility_issues}
use ydbops.Rolling.Exact.{AreCompatible, try_detect_compatibility_issues_iff}
use ydbops.Rolling.Start.{
  Replies, Selection, drop_task, create_task, done, stopped, new_state, filter_params,
  task_not_dropped, prepare_state, nodes_to_restart, start_restart, both_failed,
}
use ydbops.Rolling.Loop.{Round, completed, cms_waiting_loop}
use ydbops.Rolling.Dispatch.{HoldsEach}
use ydbops.Rolling.Recorded.{IsRecorded, IsRun}
use ydbops.Rolling.Actions.{ok, process_action_group_states}
use ydbops.Cluster.{ActionGroupStates}
use ydbops.Rolling.Waiting.{cms_waiting_loop-completes}
use ydbops.Rolling.Cleanup.{start_restart-not_dropped, start_restart-creates}
use ydbops.Rolling.Tests.{
  group_at, known_node, two_node_state, two_groups, status_of, by_tenant_limits, good_statuses,
  all_good, two_groups-IsKnown, two_nonempty,
}

last_status_example :
    let bad = status_of true (group_at 1 "a") in
    let before = handled 2 two_node_state (bad ∷ []) in
    let now = handled 2 two_node_state (bad ∷ bad ∷ []) in
    let ends = finishes 2 (retries_of two_node_state 1 + failures 1 (bad ∷ [])) bad in
    (now.completed_actions ≡ (
      if ends
      then before.completed_actions ++ bad.action_state.action_uid ∷ []
      else before.completed_actions))
    × (now.unreported_but_finished_action_ids ≡ (
        if ends
        then before.unreported_but_finished_action_ids ++ bad.action_state.action_uid.action_id ∷ []
        else before.unreported_but_finished_action_ids))
    × (now.already_restarted_nodes
        ≡ (if ends then before.already_restarted_nodes + 1 else before.already_restarted_nodes))
last_status_example =
    last_status 2 two_node_state (status_of true (group_at 1 "a") ∷ [])
      (status_of true (group_at 1 "a"))

abbrev quiet_round : Round String
quiet_round = record {
  environment = all_good;
  canceled = false;
  refreshed = none;
  nodes = nodes_are [];
}

abbrev turning_round : Round String
turning_round = record {
  environment = all_good;
  canceled = false;
  refreshed = some two_groups;
  nodes = nodes_are [];
}

cms_waiting_loop-completes_example :
    (r' : State) × (batches : List (List ActionGroupStates)) × (cms_waiting_loop
        (λ err. true)
        by_tenant_limits
        two_node_state
        none
        (quiet_round ∷ turning_round ∷ quiet_round ∷ [])
      ≡ (r', completed))
    × (process_action_group_states by_tenant_limits all_good two_node_state two_groups
        ≡ ok (batches, (r', true)))
    × HoldsEach batches two_groups
    × (r'.completed_actions ≡ uids good_statuses)
cms_waiting_loop-completes_example =
    cms_waiting_loop-completes (λ err. true) by_tenant_limits refl two_node_state none
      (quiet_round ∷ []) turning_round quiet_round two_groups good_statuses tt ((refl, tt), tt) refl
      refl refl two_nonempty (refl, (refl, tt)) two_groups-IsKnown refl (refl, (refl, tt)) refl
      (λ batches. refl) (λ reported. refl)

abbrev one_node : List Node
one_node = known_node 1 none ∷ []

try_detect_compatibility_issues_iff_example :
    let (r', verdict) =
      try_detect_compatibility_issues {Error = String} two_node_state (nodes_are one_node) in
    ((verdict ≡ compatible) ↔ AreCompatible r'.known_versions r'.known_versions)
    × ((major minor : ℕ)
        → IsRecorded r'.known_versions major minor
          ↔ (IsRecorded two_node_state.known_versions major minor ⊎ IsRun one_node major minor))
try_detect_compatibility_issues_iff_example =
    try_detect_compatibility_issues_iff two_node_state one_node tt

abbrev everything_selected : Selection
everything_selected = record {
  hosts = [];
  tenant_list = [];
  datacenters = [];
  started_time = none;
  version_spec = none;
  exclude_hosts = [];
  max_static_node_id = 50000;
}

-- Two earlier tasks, of which the second is dropped or not.
abbrev replies_with : Bool → Replies
replies_with drops = record {
  nodes = some one_node;
  tenants = some [];
  who_am_i = some "user";
  uuid = "1";
  maintenance_tasks = λ user. some ("t1" ∷ "t2" ∷ []);
  drop_maintenance_task = λ task. if task == "t1" then true else drops;
  create_maintenance_task = true;
  pods = [];
}

abbrev prepared : State
prepared = new_state one_node [] "user" "1"

prepared_with : (drops : Bool) → prepare_state [] (replies_with drops) ≡ done prepared
unfolding prepare_state
prepared_with drops = refl

start_restart-not_dropped_example :
    start_restart (λ host. true) everything_selected (replies_with false) (run true false)
    ≡ (drop_task "t1" ∷ drop_task "t2" ∷ [], stopped (task_not_dropped "t2"))
start_restart-not_dropped_example =
    start_restart-not_dropped (λ host. true) everything_selected (replies_with false)
      (run true false) prepared (prepared_with false) ("t1" ∷ []) "t2" [] refl (refl, tt) refl

abbrev selected_nodes : List Node
selected_nodes =
    nodes_to_restart (λ host. true) everything_selected (replies_with true) (run true false)
      prepared

one_selected : selected_nodes ≡ one_node
unfolding nodes_to_restart filter filter_storage exclude_by_common_fields common_loop
    populate_by_common_fields is_inclusive_filtering_unspecified filter_params get_node_fqdns
    get_node_ids filter_storage_nodes filter_by values to_map put keeps contains
one_selected = refl

parsed : both_failed (get_node_ids []) (get_node_fqdns (λ host. true) []) ≡ false
unfolding get_node_ids get_node_fqdns
parsed = refl

none_down : filter_by one_node (λ n. map_contains prepared.inactive_nodes n.node_id) ≡ []
unfolding filter_by to_map map_contains get
none_down = refl

start_restart-creates_example :
    start_restart (λ host. true) everything_selected (replies_with true) (run true false) ≡ (
      drop_task "t1" ∷ drop_task "t2" ∷ create_task "rolling-restart-1" selected_nodes ∷ [],
      done (some (record prepared { total_filtered_nodes = length selected_nodes })),
    )
start_restart-creates_example =
    start_restart-creates (λ host. true) everything_selected (replies_with true) (run true false)
      prepared (prepared_with true) ("t1" ∷ "t2" ∷ []) refl (refl, (refl, tt)) parsed refl
      (rw one_selected (λ e. cc)) (rw one_selected none_down)
