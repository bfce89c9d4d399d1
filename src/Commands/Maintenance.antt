-- ===== src/Commands/Maintenance.antt =====
-- cmd/maintenance: `Validate` and `Run` of its commands, over the clients of pkg/client. What they print is
-- left out.
use ydbops.Base.{
  ℕ, ◌%◌, ◌^◌, String, Bool, true, false, Option, none, some, List, [], ◌++◌, ◌==◌, if◌then◌else◌,
  text_comparable,
}
use Prim.Native.String
use ydbops.Base.Int.{ℤ}
use ydbops.Cluster.{Node}
use ydbops.Hosts.{get_node_ids, get_node_fqdns, populate_tenant_to_nodes_mapping}
use ydbops.Hosts as Hosts
use ydbops.Restarters.Primitives.{FilterNodeParams, ClusterNodesInfo}
use ydbops.Restarters.K8s.{Pod}
use ydbops.Restarters.{filter}
use ydbops.Rolling.Start.{Selection}
use ydbops.Cms.Client.{
  MaintenanceTask, node_scope, host_scope, TaskParams, Ended, done, error, panicked, ◌>>=◌, Service,
  nodes as cms_nodes, create_maintenance_task, drop_maintenance_task, refresh_maintenance_task,
  maintenance_tasks, complete_actions,
}
use ydbops.Commands.{prepare_restarters}

-- The filters of both restarters, one after the other; `pods` is what Kubernetes lists for each.
unfoldable pub node_ids_to_nodes :
    List Pod → List Pod → String → Selection → List Node → List ℕ → List Node
node_ids_to_nodes storage_pods tenant_pods kubeconfig_path opts all_nodes node_ids =
    let (storage_restarter, tenant_restarter) = prepare_restarters kubeconfig_path [] "" in
    let params : FilterNodeParams = record {
      version = opts.version_spec;
      started_time = opts.started_time;
      exclude_hosts = opts.exclude_hosts;
      selected_tenants = opts.tenant_list;
      selected_node_ids = node_ids;
      selected_hosts = [];
      selected_datacenters = opts.datacenters;
      max_static_node_id = opts.max_static_node_id % 2 ^ 32;
    } in
    let cluster : ClusterNodesInfo = record {
      all_nodes = all_nodes;
      tenant_to_node_ids = populate_tenant_to_nodes_mapping all_nodes;
    } in
    let (storage_restarter', storage_nodes) =
      filter storage_pods storage_restarter params cluster in
    let (tenant_restarter', tenant_nodes) = filter tenant_pods tenant_restarter params cluster in
    storage_nodes ++ tenant_nodes

-- What `Run` of `create` takes from its options and its surroundings: the mode and the priority as CMS
-- takes them, the duration in nanoseconds, and the uuid that is made.
pub record CreateOptions : Type 0 where
  pub targeting : Selection
  pub kubeconfig_path : String
  pub availability_mode : ℕ
  pub priority : ℤ
  pub duration : ℤ
  pub uuid : String
  pub storage_pods : List Pod
  pub tenant_pods : List Pod

pub data CreateEnd {ℓ κ} (Error : Type ℓ) (A : Type κ) : Type (ℓ ⊔ κ) where
  client_end : Ended Error A → CreateEnd Error A
  hosts_not_parsed : CreateEnd Error A

abbrev pub params_for : CreateOptions → List Node → List String → Bool → TaskParams
params_for o targeted hosts by_nodes = record {
  task_uid = String.◌++◌ "maintenance-" o.uuid;
  availability_mode = o.availability_mode;
  priority = o.priority;
  duration = o.duration;
  scope_type = if by_nodes then node_scope else host_scope;
  nodes = targeted;
  hosts = hosts;
}

-- By node ids where the hosts parse as such, also where they parse as names too.
abbrev pub create_params :
    CreateOptions → List Node → Hosts.Result (List ℕ) → Option (List String) → Option TaskParams
create_params o all_nodes (Hosts.ok node_ids) host_fqdns = some (
    params_for o
      (node_ids_to_nodes o.storage_pods o.tenant_pods o.kubeconfig_path o.targeting all_nodes
        node_ids)
      [] true)
create_params o all_nodes (Hosts.err e) (some host_fqdns) = some (params_for o [] host_fqdns false)
create_params o all_nodes (Hosts.err e) none = none

module _ {ℓ κ ι} {Packed : Type ℓ} {Error : Type κ} {Managed : Type ι}
    (s : Service Packed Error Managed) where
  abbrev pub create_with : Option TaskParams → CreateEnd Error MaintenanceTask
  create_with none = hosts_not_parsed
  create_with (some params) = client_end (create_maintenance_task s params)

  abbrev pub create_after :
      (String → Bool) → CreateOptions → Ended Error (List Node) → CreateEnd Error MaintenanceTask
  create_after url_parses o (error err) = client_end (error err)
  create_after url_parses o panicked = client_end panicked
  create_after url_parses o (done all_nodes) = create_with (
      create_params o all_nodes (get_node_ids o.targeting.hosts)
        (get_node_fqdns url_parses o.targeting.hosts))

  unfoldable pub create_run : (String → Bool) → CreateOptions → CreateEnd Error MaintenanceTask
  create_run url_parses o = create_after url_parses o (cms_nodes s)

-- `Validate` of `drop` and `refresh`, and that of `complete`.
abbrev pub has_task_id : String → Bool
has_task_id task_id = if task_id == "" then false else true

abbrev pub validate_complete : List String → String → Bool
validate_complete [] task_id = false
validate_complete hosts task_id = has_task_id task_id

module _ {ℓ κ ι} {Packed : Type ℓ} {Error : Type κ} {Managed : Type ι}
    (s : Service Packed Error Managed) where
  abbrev pub drop_run : String → Ended Error (Unit {0})
  drop_run task_id = drop_maintenance_task s task_id >>= λ status. done tt

  -- The tasks of the user that `WhoAmI` names.
  abbrev pub list_run : Ended Error String → Ended Error (List MaintenanceTask)
  list_run who_am_i = who_am_i >>= maintenance_tasks s

  abbrev pub refresh_run : String → Ended Error MaintenanceTask
  refresh_run task_id = refresh_maintenance_task s task_id

  abbrev pub complete_run : (String → Bool) → Managed → String → List String → Ended Error Managed
  complete_run url_parses zero_result task_id hosts =
      complete_actions s url_parses zero_result task_id hosts
