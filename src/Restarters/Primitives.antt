-- ===== src/Restarters/Primitives.antt =====
-- primitives.go, with the parameter records of interface.go and `StartedTime` of
-- pkg/options/types.go. Selection keeps the order of the nodes.
use ydbops.Base.{
  ℕ, String, Bool, true, false, not, ◌&&◌, Option, none, some, List, [], ◌∷◌, ◌++◌, ltb, ◌==◌,
  if◌then◌else◌, num_comparable, text_comparable,
}
use ydbops.Base.Text.{itoa}
use ydbops.Collections.{contains, filter_by, get, or_empty}
use ydbops.Cluster.{Instant, as_time, Node}
use ydbops.Versions.{VersionSpec, satisfies}

-- `Direction` is the rune '<' or '>'.
pub record StartedTime : Type 0 where
  pub timestamp : Instant
  pub direction : ℕ

pub record FilterNodeParams : Type 0 where
  pub version : Option VersionSpec
  pub started_time : Option StartedTime
  pub exclude_hosts : List String
  pub selected_tenants : List String
  pub selected_node_ids : List ℕ
  pub selected_hosts : List String
  pub selected_datacenters : List String
  pub max_static_node_id : ℕ

pub record ClusterNodesInfo : Type 0 where
  pub all_nodes : List Node
  pub tenant_to_node_ids : List (String × List ℕ)

unfoldable pub filter_storage_nodes : List Node → ℕ → List Node
filter_storage_nodes nodes max_static_node_id =
    filter_by nodes (λ node. node.has_storage && ltb node.node_id max_static_node_id)

abbrev pub is_dynamic : Node → Bool
is_dynamic node = elim node.dynamic [ none ↦ false | some tenant ↦ true ]

unfoldable pub filter_tenant_nodes : List Node → List Node
filter_tenant_nodes nodes = filter_by nodes is_dynamic

unfoldable pub filter_by_node_ids : List Node → List ℕ → List Node
filter_by_node_ids nodes node_ids = filter_by nodes (λ node. contains node_ids node.node_id)

unfoldable pub filter_by_datacenters : List Node → List String → List Node
filter_by_datacenters nodes datacenters =
    filter_by nodes (λ node. contains datacenters node.data_center)

unfoldable pub filter_by_host_fqdn : List Node → List String → List Node
filter_by_host_fqdn nodes host_fqdns = filter_by nodes (λ node. contains host_fqdns node.host)

-- `IsZero` of a time is the comparison with the zero instant.
unfoldable pub satisfies_starting_time : Node → Option StartedTime → Bool
satisfies_starting_time node none = true
satisfies_starting_time node (some started) =
    let node_start_time = as_time node.start_time in
    if node_start_time == 0
    then false
    else if started.direction == b'<'
    then ltb node_start_time started.timestamp
    else ltb started.timestamp node_start_time

abbrev pub is_empty {ℓ} : {A : Type ℓ} → List A → Bool
is_empty [] = true
is_empty (_ ∷ _) = false

unfoldable pub is_inclusive_filtering_unspecified : FilterNodeParams → Bool
is_inclusive_filtering_unspecified spec =
    is_empty spec.selected_datacenters
    && is_empty spec.selected_hosts
    && is_empty spec.selected_node_ids

-- `MergeAndUnique` after the ids in `present_nodes` have been seen.
unfoldable pub unique_from : List ℕ → List Node → List Node
unique_from present_nodes [] = []
unique_from present_nodes (node ∷ nodes) =
    let seen = unique_from present_nodes nodes in
    let fresh = node ∷ unique_from (node.node_id ∷ present_nodes) nodes in
    if contains present_nodes node.node_id then seen else fresh

abbrev pub concat_slices : List (List Node) → List Node
concat_slices [] = []
concat_slices (slice ∷ slices) = slice ++ concat_slices slices

-- The two nested loops visit the slices one behind the other.
unfoldable pub merge_and_unique : List (List Node) → List Node
merge_and_unique node_slices = unique_from [] (concat_slices node_slices)

unfoldable pub include_by_filter_node_params : List Node → FilterNodeParams → List Node
unfolding filter_by_datacenters filter_by_host_fqdn filter_by_node_ids
include_by_filter_node_params nodes spec = merge_and_unique (
    (filter_by_datacenters nodes spec.selected_datacenters
      ++ (filter_by_host_fqdn nodes spec.selected_hosts
          ++ filter_by_node_ids nodes spec.selected_node_ids))
    ∷ [])

unfoldable pub populate_by_common_fields : List Node → FilterNodeParams → List Node
populate_by_common_fields nodes spec =
    if is_inclusive_filtering_unspecified spec
    then nodes
    else include_by_filter_node_params nodes spec

-- A version that cannot be parsed gives `false` beside its error.
unfoldable pub satisfies_version : Node → Option VersionSpec → Bool
satisfies_version node none = true
satisfies_version node (some version) =
    if node.version == ""
    then false
    else elim (satisfies version node.version) [ none ↦ false | some answer ↦ answer ]

-- A node stays in `ExcludeByCommonFields` unless one of the `continue`s is taken.
unfoldable pub keeps : FilterNodeParams → Node → Bool
unfolding satisfies_starting_time satisfies_version
keeps spec node =
    if contains spec.exclude_hosts (itoa node.node_id)
    then false
    else if contains spec.exclude_hosts node.host
    then false
    else if not (satisfies_starting_time node spec.started_time)
    then false
    else satisfies_version node spec.version

unfoldable pub common_loop : FilterNodeParams → List Node → List Node
common_loop spec [] = []
common_loop spec (node ∷ nodes) =
    let rest = common_loop spec nodes in if keeps spec node then node ∷ rest else rest

unfoldable pub exclude_by_common_fields : List Node → FilterNodeParams → List Node
exclude_by_common_fields nodes spec = common_loop spec nodes

-- The loop over `selectedTenants` in the test of `ExcludeByTenantNames`.
unfoldable pub in_some_tenant : List String → List (String × List ℕ) → ℕ → Bool
in_some_tenant [] tenant_to_node_ids id = false
in_some_tenant (tenant ∷ tenants) tenant_to_node_ids id =
    if contains (or_empty (get tenant_to_node_ids tenant)) id
    then true
    else in_some_tenant tenants tenant_to_node_ids id

unfoldable pub exclude_by_tenant_names :
    List Node → List String → List (String × List ℕ) → List Node
unfolding in_some_tenant
exclude_by_tenant_names tenant_nodes selected_tenants tenant_to_node_ids =
    if is_empty selected_tenants
    then tenant_nodes
    else filter_by tenant_nodes
        (λ node. in_some_tenant selected_tenants tenant_to_node_ids node.node_id)
