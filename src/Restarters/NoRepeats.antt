-- ===== src/Restarters/NoRepeats.antt =====
-- No restarter's `Filter` returns one node twice.
use ydbops.Base.{
  ℕ, String, Bool, true, false, List, [], ◌∷◌, Memᴰ, Bool-cases, inl, inr, Memᴰ-cons_mono,
}
use ydbops.Collections.{filter_by}
use ydbops.Cluster.{Node}
use ydbops.Restarters.Primitives.{
  FilterNodeParams, ClusterNodesInfo, filter_storage_nodes, filter_tenant_nodes, keeps,
  include_by_filter_node_params, is_inclusive_filtering_unspecified, populate_by_common_fields,
  exclude_by_common_fields, exclude_by_tenant_names,
}
use ydbops.Restarters.K8s.{Pod}
use ydbops.Restarters.{
  Restarter, storage_ssh, tenant_ssh, storage_k8s, tenant_k8s, run, filter, filter_storage,
  filter_tenant, apply_storage_k8s_filtering_rules, apply_tenant_k8s_filtering_rules,
}
use ydbops.Restarters.Kept.{exclude_by_common_fields-eq}
use ydbops.Restarters.Unique.{HasFreshIds, merge_and_unique-HasFreshIds}

HasFreshIds-mono :
    (ids ids' : List ℕ) (nodes : List Node)
    → ((a : ℕ) → Memᴰ a ids' → Memᴰ a ids)
    → HasFreshIds ids nodes
    → HasFreshIds ids' nodes
HasFreshIds-mono ids ids' [] sub h = tt
HasFreshIds-mono ids ids' (x ∷ nodes) sub (new, h) = (
  (λ m. new (sub x.node_id m)),
  HasFreshIds-mono (x.node_id ∷ ids) (x.node_id ∷ ids') nodes (λ a. Memᴰ-cons_mono (sub a)) h,
)

HasFreshIds-filter_by :
    (ids : List ℕ) (nodes : List Node) (f : Node → Bool)
    → HasFreshIds ids nodes
    → HasFreshIds ids (filter_by nodes f)
unfolding filter_by
HasFreshIds-filter_by ids [] f h = tt
HasFreshIds-filter_by ids (x ∷ nodes) f (new, h) = elim (Bool-cases (f x)) [
  | inl kept ↦ rw kept (new, HasFreshIds-filter_by (x.node_id ∷ ids) nodes f h)
  | inr dropped ↦ rw dropped (
      HasFreshIds-filter_by ids nodes f
        (HasFreshIds-mono (x.node_id ∷ ids) ids nodes (λ a m. Memᴰ.tail m) h))
]

-- The lists without a repeated id.
abbrev pub HasDistinctIds : List Node → Type 0
HasDistinctIds nodes = HasFreshIds [] nodes

module _ (spec : FilterNodeParams) (nodes : List Node) where
  populate-HasDistinctIds :
      HasDistinctIds nodes → HasDistinctIds (populate_by_common_fields nodes spec)
  unfolding populate_by_common_fields include_by_filter_node_params
  populate-HasDistinctIds h = elim (Bool-cases (is_inclusive_filtering_unspecified spec)) [
    | inl unspecified ↦ rw unspecified h
    | inr specified ↦ rw specified (merge_and_unique-HasFreshIds _)
  ]

  exclude-HasDistinctIds :
      HasDistinctIds nodes → HasDistinctIds (exclude_by_common_fields nodes spec)
  exclude-HasDistinctIds h =
      rw exclude_by_common_fields-eq (HasFreshIds-filter_by [] nodes (keeps spec) h)

tenants-HasDistinctIds :
    (nodes : List Node) (tenants : List String) (ids : List (String × List ℕ))
    → HasDistinctIds nodes
    → HasDistinctIds (exclude_by_tenant_names nodes tenants ids)
unfolding exclude_by_tenant_names
tenants-HasDistinctIds nodes [] ids h = h
tenants-HasDistinctIds nodes (t ∷ ts) ids h = HasFreshIds-filter_by [] nodes _ h

module _ (spec : FilterNodeParams) (cluster : ClusterNodesInfo)
    (distinct : HasDistinctIds cluster.all_nodes) where
  storage-HasDistinctIds : HasDistinctIds (filter_storage spec cluster)
  unfolding filter_storage filter_storage_nodes
  storage-HasDistinctIds =
      exclude-HasDistinctIds spec _
        (populate-HasDistinctIds spec _ (HasFreshIds-filter_by [] cluster.all_nodes _ distinct))

  tenant-HasDistinctIds : HasDistinctIds (filter_tenant spec cluster)
  unfolding filter_tenant filter_tenant_nodes
  tenant-HasDistinctIds = exclude-HasDistinctIds spec _ (
      tenants-HasDistinctIds _ spec.selected_tenants cluster.tenant_to_node_ids
        (populate-HasDistinctIds spec _ (HasFreshIds-filter_by [] cluster.all_nodes _ distinct)))

  -- Where the cluster lists no id twice, no restarter selects one id twice: neither with overlapping
  -- options nor where a pod name and a host name the same node.
  pub filter-HasDistinctIds :
      (pods : List Pod) (restarter : Restarter)
      → HasDistinctIds (filter pods restarter spec cluster).1
  unfolding filter apply_storage_k8s_filtering_rules apply_tenant_k8s_filtering_rules
  filter-HasDistinctIds pods (storage_ssh unit args) = storage-HasDistinctIds
  filter-HasDistinctIds pods (tenant_ssh unit args) = tenant-HasDistinctIds
  filter-HasDistinctIds pods (storage_k8s names) =
      exclude-HasDistinctIds spec _ (merge_and_unique-HasFreshIds _)
  filter-HasDistinctIds pods (tenant_k8s names) = exclude-HasDistinctIds spec _ (
      tenants-HasDistinctIds _ spec.selected_tenants cluster.tenant_to_node_ids
        (merge_and_unique-HasFreshIds _))
  filter-HasDistinctIds pods (run true dynnode_only) = storage-HasDistinctIds
  filter-HasDistinctIds pods (run false true) = tenant-HasDistinctIds
  filter-HasDistinctIds pods (run false false) = exclude-HasDistinctIds spec [] tt
