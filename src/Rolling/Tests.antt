-- ===== src/Rolling/Tests.antt =====
-- Passes and loops over two groups, one of which is on a node with storage.
use ydbops.Base.{
  ℕ, ◌≡◌, refl, ◌≢◌, String, Bool, true, false, Option, none, some, List, [], ◌∷◌, map, length,
  Memᴰ, All, num_comparable,
}
use ydbops.Base.Int.{pos}
use ydbops.Collections.{get, contains, filter_by}
use ydbops.Cluster.{Node, ItemState, ActionStatus, ActionGroupStates, by_node}
use ydbops.Rolling.State.{Limits, State, RestartStatus, received}
use ydbops.Rolling.Actions.{
  ok, uid_of, Environment, get_performed_actions, dispatch_actions, run_batches,
  process_action_group_states, contains_storage, close_pass, has_action_in_unreported,
}
use ydbops.Rolling.Split.{IsKnown, to_restart}
use ydbops.Rolling.Dispatch.{HoldsEach, OneTenant, dispatch_actions_lem, dispatch_by_tenant_lem}
use ydbops.Rolling.Pass.{IsFresh, reported_again, process_action_group_states_lem, uids}
use ydbops.Rolling.Finish.{process_action_group_states_completes}
use ydbops.Rolling.Repeat.{AreEmpty, failed_report_repeated}

abbrev pub group_at : ℕ → String → ActionGroupStates
group_at node_id action_id = record {
  first_state = record {
    action_uid = record { task_uid = "t"; group_id = "g"; action_id = action_id };
    lock = some (by_node node_id);
    status = ActionStatus.performed;
  };
  other_states = [];
}

abbrev pub known_node : ℕ → Option String → Node
known_node id tenant = record {
  node_id = id;
  host = "host.net";
  port = 19001;
  version = "24.1.2";
  data_center = "dc";
  has_storage = true;
  dynamic = tenant;
  start_time = none;
  item_state = ItemState.up;
}

abbrev pub two_node_state : State
two_node_state = record {
  known_versions = [];
  nodes = (1, known_node 1 (some "/root/a")) ∷ (2, known_node 2 (some "/root/b")) ∷ [];
  inactive_nodes = [];
  tenant_name_to_node_ids = [];
  retries_made_for_node = [];
  tenants = [];
  user_sid = "user";
  unreported_but_finished_action_ids = [];
  restart_task_uid = "rolling-restart-1";
  already_restarted_nodes = 0;
  total_filtered_nodes = 2;
  completed_actions = [];
}

abbrev pub two_groups : List ActionGroupStates
two_groups = group_at 1 "a" ∷ group_at 2 "b" ∷ []

abbrev pub status_of : Bool → ActionGroupStates → RestartStatus
status_of fails gs = record { node_id = 1; action_state = gs.first_state; failed = fails }

abbrev pub by_tenant_limits : Limits
by_tenant_limits = record {
  restart_retry_number = 3;
  nodes_inflight = pos 1;
  tenants_inflight = 2;
  suppress_compatibility_check = true;
  largest_channel = 1000000;
}

abbrev pub good_statuses : List RestartStatus
good_statuses = map (status_of false) two_groups

abbrev pub all_good : Environment
all_good = record {
  restarts = λ batches. map received good_statuses;
  complete_action = λ reported. some (length reported);
}

abbrev cms_down : Environment
cms_down = record {
  restarts = λ batches. map received good_statuses;
  complete_action = λ reported. none;
}

pub two_groups-IsKnown : All (IsKnown two_node_state) two_groups
unfolding get
two_groups-IsKnown = (
  (by_node 1, refl, (known_node 1 (some "/root/a"), refl)),
  ((by_node 2, refl, (known_node 2 (some "/root/b"), refl)), tt),
)

pub two_performed : get_performed_actions two_groups ≡ two_groups
unfolding get_performed_actions filter_by
two_performed = refl

pub two_nonempty : two_groups ≢ []
two_nonempty e = cc

pub two_fresh : to_restart two_node_state two_groups ≡ two_groups
unfolding filter_by has_action_in_unreported contains
two_fresh = refl

process_action_group_states_lem_example :
    (batches : List (List ActionGroupStates)) × (process_action_group_states by_tenant_limits
        all_good two_node_state two_groups
      ≡ ok (
          run_batches by_tenant_limits all_good 2
            (reported_again two_node_state (get_performed_actions two_groups))
            (to_restart two_node_state (get_performed_actions two_groups))
            batches))
    × HoldsEach batches (to_restart two_node_state (get_performed_actions two_groups))
    × All (All (IsFresh two_node_state)) batches
process_action_group_states_lem_example =
    process_action_group_states_lem by_tenant_limits all_good two_node_state two_groups refl
      (rw two_performed two_nonempty) (rw two_performed two_groups-IsKnown)

process_action_group_states_completes_example :
    (r' : State) × (batches : List (List ActionGroupStates)) × (process_action_group_states
        by_tenant_limits all_good two_node_state two_groups
      ≡ ok (batches, (r', true)))
    × HoldsEach batches two_groups
    × (r'.completed_actions ≡ uids good_statuses)
    × (r'.unreported_but_finished_action_ids ≡ [])
process_action_group_states_completes_example =
    process_action_group_states_completes by_tenant_limits all_good two_node_state two_groups
      good_statuses refl two_nonempty (refl, (refl, tt)) two_groups-IsKnown refl (refl, (refl, tt))
      refl (λ batches. refl) (λ reported. refl)

failed_report_repeated_example :
    (r' : State) × (first second : List (List ActionGroupStates)) × (process_action_group_states
        by_tenant_limits cms_down two_node_state two_groups
      ≡ ok (first, (r', false)))
    × HoldsEach first (to_restart two_node_state (get_performed_actions two_groups))
    × AreEmpty second
    × (process_action_group_states by_tenant_limits all_good r' two_groups
        ≡ ok (
          second,
          close_pass 2
              (record r' { completed_actions = map uid_of (get_performed_actions two_groups) })
              (all_good.complete_action (map uid_of (get_performed_actions two_groups))),
        ))
failed_report_repeated_example =
    failed_report_repeated by_tenant_limits cms_down all_good two_node_state two_groups
      good_statuses refl (rw two_performed two_nonempty) (rw two_performed two_groups-IsKnown)
      (refl, (refl, tt)) (rw (two_performed, two_fresh) refl)
      (rw (two_performed, two_fresh) (Memᴰ.head refl, (Memᴰ.tail (Memᴰ.head refl), tt)))
      (λ batches. refl) (λ reported. refl)

dispatch_actions_lem_example :
    (batches : List (List ActionGroupStates)) × (dispatch_actions by_tenant_limits two_node_state
        two_groups
      ≡ ok batches)
    × HoldsEach batches two_groups
    × All (All (IsKnown two_node_state)) batches
dispatch_actions_lem_example =
    dispatch_actions_lem two_node_state (IsKnown two_node_state) by_tenant_limits two_groups
      two_groups-IsKnown two_groups-IsKnown

two_dynamic : contains_storage two_node_state two_groups ≡ ok false
unfolding contains_storage get
two_dynamic = refl

dispatch_by_tenant_lem_example :
    (batches : List (List ActionGroupStates)) × (dispatch_actions by_tenant_limits two_node_state
        two_groups
      ≡ ok batches)
    × HoldsEach batches two_groups
    × All (OneTenant two_node_state (IsKnown two_node_state)) batches
dispatch_by_tenant_lem_example =
    dispatch_by_tenant_lem two_node_state (IsKnown two_node_state) by_tenant_limits two_groups
      two_groups-IsKnown two_groups-IsKnown two_dynamic refl
