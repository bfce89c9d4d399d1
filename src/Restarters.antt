-- ===== src/Restarters.antt =====
-- pkg/rolling/restarters: which nodes a restarter selects (`Filter`) and what it runs to restart one
-- (`RestartNode`). This file has interface.go and the five restarters over their parts in the
-- children; warnings and other log lines are left out.
pub mod Primitives
pub mod K8s
pub mod Ssh
pub mod Kept
pub mod Unique
pub mod Selection
pub mod Exact
pub mod NoRepeats
mod Tests
use ydbops.Base.{
  ℕ, String, Bool, true, false, Option, none, some, List, [], ◌∷◌, ◌==◌, if◌then◌else◌,
  text_comparable,
}
use ydbops.Cluster.{Node}
use Primitives.{
  FilterNodeParams, ClusterNodesInfo, filter_storage_nodes, filter_tenant_nodes,
  populate_by_common_fields, exclude_by_common_fields, exclude_by_tenant_names, merge_and_unique,
}
use K8s.{
  Pod, K8sClient, PodError, prepare_k8s_state, populate_with_k8s_rules,
  restart_node_by_restarting_pod,
}
use Ssh.{ssh_command_line}

-- The restarters with the options that they read. The Kubernetes ones hold `FQDNToPodName`.
pub data Restarter : Type 0 where
  storage_ssh tenant_ssh : (unit : String) (ssh_args : List String) → Restarter
  storage_k8s tenant_k8s : (fqdn_to_pod_name : List (String × String)) → Restarter
  run : (storage_only dynnode_only : Bool) → Restarter

unfoldable pub apply_storage_k8s_filtering_rules :
    FilterNodeParams → ClusterNodesInfo → List (String × String) → List Node
apply_storage_k8s_filtering_rules spec cluster fqdn_to_pod_name =
    let all_storage_nodes = filter_storage_nodes cluster.all_nodes spec.max_static_node_id in
    let selected_by_cms_nodes = populate_by_common_fields all_storage_nodes spec in
    let selected_by_k8s_nodes = populate_with_k8s_rules all_storage_nodes spec fqdn_to_pod_name in
    exclude_by_common_fields (merge_and_unique (selected_by_cms_nodes ∷ selected_by_k8s_nodes ∷ []))
      spec

unfoldable pub apply_tenant_k8s_filtering_rules :
    FilterNodeParams → ClusterNodesInfo → List (String × String) → List Node
apply_tenant_k8s_filtering_rules spec cluster fqdn_to_pod_name =
    let tenant_nodes = filter_tenant_nodes cluster.all_nodes in
    let selected_by_cms_nodes = populate_by_common_fields tenant_nodes spec in
    let selected_by_k8s_nodes = populate_with_k8s_rules tenant_nodes spec fqdn_to_pod_name in
    let selected_nodes = merge_and_unique (selected_by_cms_nodes ∷ selected_by_k8s_nodes ∷ []) in
    exclude_by_common_fields
      (exclude_by_tenant_names selected_nodes spec.selected_tenants cluster.tenant_to_node_ids) spec

-- `Filter` of StorageSSHRestarter, and of RunRestarter with `storageOnly`.
unfoldable pub filter_storage : FilterNodeParams → ClusterNodesInfo → List Node
filter_storage spec cluster =
    exclude_by_common_fields
      (populate_by_common_fields (filter_storage_nodes cluster.all_nodes spec.max_static_node_id)
        spec)
      spec

-- `Filter` of TenantSSHRestarter, and of RunRestarter with `dynnodeOnly`.
unfoldable pub filter_tenant : FilterNodeParams → ClusterNodesInfo → List Node
filter_tenant spec cluster =
    exclude_by_common_fields
      (exclude_by_tenant_names
        (populate_by_common_fields (filter_tenant_nodes cluster.all_nodes) spec)
        spec.selected_tenants cluster.tenant_to_node_ids)
      spec

-- `pods` is what the Kubernetes API lists for the restarter's label and namespace. The map of names
-- that `prepareK8sState` extends stays in the restarter.
unfoldable pub filter :
    List Pod → Restarter → FilterNodeParams → ClusterNodesInfo → Restarter × List Node
filter pods (storage_ssh unit args) spec cluster =
    (storage_ssh unit args, filter_storage spec cluster)
filter pods (tenant_ssh unit args) spec cluster = (tenant_ssh unit args, filter_tenant spec cluster)
filter pods (storage_k8s names) spec cluster =
    let names' = prepare_k8s_state names pods in
    (storage_k8s names', apply_storage_k8s_filtering_rules spec cluster names')
filter pods (tenant_k8s names) spec cluster =
    let names' = prepare_k8s_state names pods in
    (tenant_k8s names', apply_tenant_k8s_filtering_rules spec cluster names')
filter pods (run true dynnode_only) spec cluster =
    (run true dynnode_only, filter_storage spec cluster)
filter pods (run false true) spec cluster = (run false true, filter_tenant spec cluster)
filter pods (run false false) spec cluster = (run false false, exclude_by_common_fields [] spec)

unfoldable pub set_storage_only : Restarter → Restarter
set_storage_only (run storage_only dynnode_only) = run true false
set_storage_only other = other

unfoldable pub set_dynnode_only : Restarter → Restarter
set_dynnode_only (run storage_only dynnode_only) = run false true
set_dynnode_only other = other

-- What a restart of a node runs, or the error it fails with before it runs anything.
pub data Launch : Type 0 where
  shell : (command_line : String) → Launch
  payload : (hostname : String) → Launch
  deletes_pod : Option PodError → Launch
  unsupported_ssh : Launch

abbrev shell_or_error : Option String → Launch
shell_or_error none = unsupported_ssh
shell_or_error (some line) = shell line

abbrev or_default : String → String → String
or_default unit default_unit = if unit == "" then default_unit else unit

unfoldable pub restart_node : K8sClient → Restarter → Node → Launch
restart_node client (storage_ssh unit ssh_args) node =
    shell_or_error
      (ssh_command_line node.host (or_default unit "ydb-server-storage.service") ssh_args)
restart_node client (tenant_ssh unit ssh_args) node =
    shell_or_error (ssh_command_line node.host (or_default unit "ydb-server-mt-starter") ssh_args)
restart_node client (storage_k8s names) node =
    deletes_pod (restart_node_by_restarting_pod client names node.host node.port)
restart_node client (tenant_k8s names) node =
    deletes_pod (restart_node_by_restarting_pod client names node.host node.port)
restart_node client (run storage_only dynnode_only) node = payload node.host
