-- ===== src/Restarters/Exact.antt =====
-- The nodes that `Filter` returns, exactly: storage_ssh.go, tenant_ssh.go and run.go.
use ydbops.Base.{
  ℕ, ◌<◌, ◌≡◌, refl, ◌≢◌, ◌↔◌, ◌⊎◌, inl, inr, String, true, none, List, [], ◌∷◌, Memᴰ, arith,
  Bool-cases, num_comparable, text_comparable,
}
use ydbops.Collections.{contains, get, or_empty}
use ydbops.Collections.Membership.{contains-Memᴰ, Memᴰ-contains, Memᴰ-filter_by, of_Memᴰ-filter_by}
use ydbops.Cluster.{Node}
use ydbops.Restarters.Primitives.{
  FilterNodeParams, ClusterNodesInfo, filter_storage_nodes, filter_tenant_nodes, is_dynamic,
  exclude_by_tenant_names, in_some_tenant,
}
use ydbops.Restarters.{filter_storage, filter_tenant}
use ydbops.Restarters.Kept.{Kept, exclude_by_common_fields_iff}
use ydbops.Restarters.Unique.{IdsIdentify}
use ydbops.Restarters.Selection.{IsNamed, populate_by_common_fields_iff}

-- A static storage node: it stores data and its id is below the bound.
abbrev pub IsStatic : FilterNodeParams → Node → Type 0
IsStatic spec node = (node.has_storage ≡ true) × (node.node_id < spec.max_static_node_id)

filter_storage_nodes_iff :
    (spec : FilterNodeParams) (nodes : List Node) (node : Node)
    → Memᴰ node (filter_storage_nodes nodes spec.max_static_node_id)
      ↔ (Memᴰ node nodes × IsStatic spec node)
unfolding filter_storage_nodes
filter_storage_nodes_iff spec nodes node = (
  (λ m. let (inside, h) = of_Memᴰ-filter_by _ nodes m in (inside, (ground arith, ground arith))),
  (λ p. Memᴰ-filter_by _ p.0 (ground arith)),
)

filter_tenant_nodes_iff :
    (nodes : List Node) (node : Node)
    → Memᴰ node (filter_tenant_nodes nodes) ↔ (Memᴰ node nodes × (node.dynamic ≢ none))
unfolding filter_tenant_nodes
filter_tenant_nodes_iff nodes node = (
  (λ m. let (inside, h) = of_Memᴰ-filter_by is_dynamic nodes m in (inside, ground arith)),
  (λ p. Memᴰ-filter_by is_dynamic p.0 (ground arith)),
)

-- The node belongs to one of the tenants; with no tenant given every node does.
abbrev pub IsInTenants : FilterNodeParams → ClusterNodesInfo → Node → Type 0
IsInTenants spec cluster node =
    (spec.selected_tenants ≡ [])
    ⊎ ((tenant : String) × Memᴰ tenant spec.selected_tenants
        × Memᴰ node.node_id (or_empty (get cluster.tenant_to_node_ids tenant)))

abbrev Belongs : List String → List (String × List ℕ) → ℕ → Type 0
Belongs tenants ids id =
    (tenant : String) × Memᴰ tenant tenants × Memᴰ id (or_empty (get ids tenant))

of_in_some_tenant :
    (tenants : List String) (ids : List (String × List ℕ)) (id : ℕ)
    → in_some_tenant tenants ids id ≡ true
    → Belongs tenants ids id
unfolding in_some_tenant
of_in_some_tenant [] ids id h = cc
of_in_some_tenant (tenant ∷ tenants) ids id h =
    elim (Bool-cases (contains (or_empty (get ids tenant)) id)) [
      | inl here ↦ (tenant, Memᴰ.head refl, contains-Memᴰ _ here)
      | inr elsewhere ↦
          let (other, inside, m) = of_in_some_tenant tenants ids id (rw elsewhere at h) in
          (other, Memᴰ.tail inside, m)
    ]

in_some_tenant_of :
    {tenant : String} {tenants : List String} (ids : List (String × List ℕ)) (id : ℕ)
    → Memᴰ tenant tenants
    → Memᴰ id (or_empty (get ids tenant))
    → in_some_tenant tenants ids id ≡ true
unfolding in_some_tenant
in_some_tenant_of {tenant} ids id (Memᴰ.head {x} e) m =
    let here = Memᴰ-contains m in ground (arith, here)
in_some_tenant_of ids id (Memᴰ.tail inside) m = ground (arith, in_some_tenant_of ids id inside m)

exclude_by_tenant_names_iff :
    (spec : FilterNodeParams) (cluster : ClusterNodesInfo) (nodes : List Node) (node : Node)
    → Memᴰ node (exclude_by_tenant_names nodes spec.selected_tenants cluster.tenant_to_node_ids)
      ↔ (Memᴰ node nodes × IsInTenants spec cluster node)
unfolding exclude_by_tenant_names
exclude_by_tenant_names_iff spec cluster nodes node = tenants_case spec.selected_tenants
  where
    tenants_case :
        (tenants : List String)
        → Memᴰ node (exclude_by_tenant_names nodes tenants cluster.tenant_to_node_ids) ↔ (
            Memᴰ node nodes
            × ((tenants ≡ []) ⊎ Belongs tenants cluster.tenant_to_node_ids node.node_id))
    tenants_case [] = ((λ m. (m, inl refl)), (λ p. p.0))
    tenants_case (t ∷ ts) = (
      (λ m.
          let (inside, h) = of_Memᴰ-filter_by _ nodes m in
          (inside, inr (of_in_some_tenant (t ∷ ts) cluster.tenant_to_node_ids node.node_id h))),
      (λ p.
          Memᴰ-filter_by (λ n. in_some_tenant (t ∷ ts) cluster.tenant_to_node_ids n.node_id) p.0
            (elim p.1 [
              | inl none_given ↦ cc
              | inr b ↦ in_some_tenant_of cluster.tenant_to_node_ids node.node_id b.1 b.2
            ])),
    )

module _ (spec : FilterNodeParams) (cluster : ClusterNodesInfo) (node : Node)
    (same : IdsIdentify cluster.all_nodes) where
  IdsIdentify-storage : IdsIdentify (filter_storage_nodes cluster.all_nodes spec.max_static_node_id)
  IdsIdentify-storage a b ma mb =
      same a b ((filter_storage_nodes_iff spec cluster.all_nodes a).0 ma).0
        ((filter_storage_nodes_iff spec cluster.all_nodes b).0 mb).0

  IdsIdentify-tenant : IdsIdentify (filter_tenant_nodes cluster.all_nodes)
  IdsIdentify-tenant a b ma mb =
      same a b ((filter_tenant_nodes_iff cluster.all_nodes a).0 ma).0
        ((filter_tenant_nodes_iff cluster.all_nodes b).0 mb).0

  -- Where ids identify the cluster's nodes, the storage filter returns exactly the nodes that store
  -- data, have an id strictly below the bound, are named by datacenter, host or id (or no such option
  -- is given), and pass the exclusions by host, start time and version.
  pub filter_storage_iff :
      Memᴰ node (filter_storage spec cluster)
      ↔ (Memᴰ node cluster.all_nodes × IsStatic spec node × IsNamed spec node × Kept spec node)
  unfolding filter_storage
  filter_storage_iff = (
    (λ m.
        let (populated, kept) = (exclude_by_common_fields_iff spec _ node).0 m in
        let (stored, named) =
          (populate_by_common_fields_iff spec _ node IdsIdentify-storage).0 populated in
        let (inside, static) = (filter_storage_nodes_iff spec cluster.all_nodes node).0 stored in
        (inside, static, named, kept)),
    (λ p. (exclude_by_common_fields_iff spec _ node).1 (
      (populate_by_common_fields_iff spec _ node IdsIdentify-storage).1
          ((filter_storage_nodes_iff spec cluster.all_nodes node).1 (p.0, p.1), p.2),
      p.3,
    )),
  )

  -- Where ids identify the cluster's nodes, the tenant filter returns exactly the dynamic nodes that
  -- are named by datacenter, host or id (or no such option is given), belong to a selected tenant (or
  -- none is given), and pass the exclusions by host, start time and version.
  pub filter_tenant_iff : Memᴰ node (filter_tenant spec cluster) ↔ (
      Memᴰ node cluster.all_nodes
      × (node.dynamic ≢ none)
      × IsNamed spec node
      × IsInTenants spec cluster node
      × Kept spec node)
  unfolding filter_tenant
  filter_tenant_iff = (
    (λ m.
        let (in_tenants, kept) = (exclude_by_common_fields_iff spec _ node).0 m in
        let (populated, tenant) = (exclude_by_tenant_names_iff spec cluster _ node).0 in_tenants in
        let (dyn, named) =
          (populate_by_common_fields_iff spec _ node IdsIdentify-tenant).0 populated in
        let (inside, is_dyn) = (filter_tenant_nodes_iff cluster.all_nodes node).0 dyn in
        (inside, is_dyn, named, tenant, kept)),
    (λ p. (exclude_by_common_fields_iff spec _ node).1 (
      (exclude_by_tenant_names_iff spec cluster _ node).1 (
        (populate_by_common_fields_iff spec _ node IdsIdentify-tenant).1
            ((filter_tenant_nodes_iff cluster.all_nodes node).1 (p.0, p.1), p.2),
        p.3,
      ),
      p.4,
    )),
  )
