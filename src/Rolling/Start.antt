-- ===== src/Rolling/Start.antt =====
-- rolling.go: `prepareState`, `cleanupRollingRestart` and `DoRestart` up to the loop. The
-- replies of the services are arguments.
use ydbops.Base.{
  ℕ, ◌-◌, ◌%◌, ◌^◌, String, Bool, true, false, not, Option, none, some, List, [], ◌∷◌, ◌++◌, ◌==◌,
  length, if◌then◌else◌, num_comparable, text_comparable,
}
use Prim.Native.String
use ydbops.Collections.{contains, filter_by, map_contains, to_map, values}
use ydbops.Cluster.{Node, is_up}
use ydbops.Hosts.{get_node_ids, get_node_fqdns, populate_tenant_to_nodes_mapping}
use ydbops.Hosts as Hosts
use ydbops.Restarters.Primitives.{FilterNodeParams, ClusterNodesInfo, StartedTime}
use ydbops.Restarters.K8s.{Pod}
use ydbops.Restarters.{Restarter, filter}
use ydbops.Versions.{VersionSpec}
use ydbops.Rolling.State.{State}

-- The errors that end a restart before its loop.
pub data Failure : Type 0 where
  nodes_not_listed tenants_not_listed who_am_i_failed tasks_not_listed : Failure
  unknown_tenant : String → Failure
  task_not_dropped : String → Failure
  hosts_not_parsed task_not_created : Failure

pub data Ran {ℓ} (A : Type ℓ) : Type ℓ where
  done : A → Ran A
  stopped : Failure → Ran A

abbrev check_tenants {ℓ} : {A : Type ℓ} → List String → List String → A → Ran A
check_tenants tenants [] a = done a
check_tenants tenants (tenant ∷ selected) a =
    if contains tenants tenant
    then check_tenants tenants selected a
    else stopped (unknown_tenant tenant)

-- What the services answer, `none` for an error, and the uuid that is made.
pub record Replies : Type 0 where
  pub nodes : Option (List Node)
  pub tenants : Option (List String)
  pub who_am_i : Option String
  pub uuid : String
  pub maintenance_tasks : String → Option (List String)
  pub drop_maintenance_task : String → Bool
  pub create_maintenance_task : Bool
  pub pods : List Pod

abbrev pub new_state : List Node → List String → String → String → State
new_state nodes tenants user_sid uuid = record {
  known_versions = [];
  nodes = to_map (filter_by nodes (λ n. is_up n.item_state)) (λ n. n.node_id);
  inactive_nodes = to_map (filter_by nodes (λ n. not (is_up n.item_state))) (λ n. n.node_id);
  tenant_name_to_node_ids =
      populate_tenant_to_nodes_mapping (filter_by nodes (λ n. is_up n.item_state));
  retries_made_for_node = [];
  tenants = tenants;
  user_sid = user_sid;
  unreported_but_finished_action_ids = [];
  restart_task_uid = String.◌++◌ "rolling-restart-" uuid;
  already_restarted_nodes = 0;
  total_filtered_nodes = 0;
  completed_actions = [];
}

abbrev or_stop {ℓ} : {A : Type ℓ} → Option A → Failure → Ran A
or_stop none failure = stopped failure
or_stop (some a) failure = done a

infixl 5 ◌>>=◌
abbrev pub ◌>>=◌ {ℓ κ} : {A : Type ℓ} {B : Type κ} → Ran A → (A → Ran B) → Ran B
done a >>= f = f a
stopped failure >>= f = stopped failure

unfoldable pub prepare_state : List String → Replies → Ran State
prepare_state tenant_list replies = do
  nodes ← or_stop replies.nodes nodes_not_listed
  tenants ← or_stop replies.tenants tenants_not_listed
  tenants' ← check_tenants tenants tenant_list tenants
  user_sid ← or_stop replies.who_am_i who_am_i_failed
  done (new_state nodes tenants' user_sid replies.uuid)

-- What is asked of CMS, in order. A task is created for the nodes.
pub data Call : Type 0 where
  drop_task : String → Call
  create_task : (task_uid : String) (nodes : List Node) → Call

unfoldable pub drop_tasks : (String → Bool) → List String → List Call × Ran (Unit {0})
drop_tasks drops [] = ([], done tt)
drop_tasks drops (task ∷ tasks) =
    let (calls, end) = drop_tasks drops tasks in
    if drops task
    then (drop_task task ∷ calls, end)
    else (drop_task task ∷ [], stopped (task_not_dropped task))

abbrev pub drop_listed : (String → Bool) → Option (List String) → List Call × Ran (Unit {0})
drop_listed drops none = ([], stopped tasks_not_listed)
drop_listed drops (some tasks) = drop_tasks drops tasks

unfoldable pub cleanup_rolling_restart : Replies → State → List Call × Ran (Unit {0})
cleanup_rolling_restart replies r =
    drop_listed replies.drop_maintenance_task (replies.maintenance_tasks r.user_sid)

-- The options that select nodes.
pub record Selection : Type 0 where
  pub hosts : List String
  pub tenant_list : List String
  pub datacenters : List String
  pub started_time : Option StartedTime
  pub version_spec : Option VersionSpec
  pub exclude_hosts : List String
  pub max_static_node_id : ℕ

abbrev ids_or_nil : Hosts.Result (List ℕ) → List ℕ
ids_or_nil (Hosts.ok ids) = ids
ids_or_nil (Hosts.err e) = []

abbrev fqdns_or_nil : Option (List String) → List String
fqdns_or_nil none = []
fqdns_or_nil (some fqdns) = fqdns

abbrev pub both_failed : Hosts.Result (List ℕ) → Option (List String) → Bool
both_failed (Hosts.err e) none = true
both_failed _ _ = false

unfoldable pub filter_params : (String → Bool) → Selection → FilterNodeParams
filter_params url_parses opts = record {
  selected_tenants = opts.tenant_list;
  selected_node_ids = ids_or_nil (get_node_ids opts.hosts);
  selected_hosts = fqdns_or_nil (get_node_fqdns url_parses opts.hosts);
  selected_datacenters = opts.datacenters;
  started_time = opts.started_time;
  version = opts.version_spec;
  exclude_hosts = opts.exclude_hosts;
  max_static_node_id = opts.max_static_node_id % 2 ^ 32;
}

abbrev cluster_of : State → ClusterNodesInfo
cluster_of r = record { tenant_to_node_ids = r.tenant_name_to_node_ids; all_nodes = values r.nodes }

unfoldable pub nodes_to_restart :
    (String → Bool) → Selection → Replies → Restarter → State → List Node
nodes_to_restart url_parses opts replies restarter r =
    let (restarter', nodes) =
      filter replies.pods restarter (filter_params url_parses opts) (cluster_of r) in
    nodes

-- The nodes that are down are counted, and no task is created where no other node is left.
abbrev pub create_for : Replies → State → List Node → List Call × Ran (Option State)
create_for replies r nodes =
    let excluded = filter_by nodes (λ n. map_contains r.inactive_nodes n.node_id) in
    if length nodes - length excluded == 0
    then ([], done none)
    else if replies.create_maintenance_task
    then (
      create_task r.restart_task_uid nodes ∷ [],
      done (some (record r { total_filtered_nodes = length nodes })),
    )
    else (create_task r.restart_task_uid nodes ∷ [], stopped task_not_created)

abbrev pub after_cleanup :
    (String → Bool) → Selection → Replies → Restarter → State → List Call × Ran (Option State)
after_cleanup url_parses opts replies restarter r =
    if both_failed (get_node_ids opts.hosts) (get_node_fqdns url_parses opts.hosts)
    then ([], stopped hosts_not_parsed)
    else create_for replies r (nodes_to_restart url_parses opts replies restarter r)

abbrev pub and_then {ℓ} :
    {B : Type ℓ} → List Call × Ran (Unit {0}) → List Call × Ran B → List Call × Ran B
and_then (calls, done u) (calls', end) = (calls ++ calls', end)
and_then (calls, stopped failure) next = (calls, stopped failure)

abbrev pub start_with :
    (String → Bool) → Selection → Replies → Restarter → Ran State → List Call × Ran (Option State)
start_with url_parses opts replies restarter (stopped failure) = ([], stopped failure)
start_with url_parses opts replies restarter (done r) =
    and_then (cleanup_rolling_restart replies r) (after_cleanup url_parses opts replies restarter r)

-- `DoRestart` up to `cmsWaitingLoop`: what is asked of CMS, and the state in which the loop starts,
-- `none` where there is nothing to restart.
unfoldable pub start_restart :
    (String → Bool) → Selection → Replies → Restarter → List Call × Ran (Option State)
start_restart url_parses opts replies restarter =
    start_with url_parses opts replies restarter (prepare_state opts.tenant_list replies)
