-- ===== src/Restarters/Selection.antt =====
-- Which nodes the SSH restarters and the run restarter select: storage_ssh.go, tenant_ssh.go, run.go.
use mathlib.Core.List.{append-nil}
use ydbops.Base.{
  ◌≡◌, ◌↔◌, ◌⊎◌, inl, inr, true, false, List, [], ◌∷◌, ◌++◌, Memᴰ, arith, Bool-cases, Comparable,
  num_comparable, text_comparable, Memᴰ-append_left, Memᴰ-append_right, Memᴰ-append_cases,
}
use ydbops.Collections.{contains, filter_by}
use ydbops.Collections.Membership.{contains-Memᴰ, Memᴰ-contains, Memᴰ-filter_by, of_Memᴰ-filter_by}
use ydbops.Cluster.{Node}
use ydbops.Restarters.Primitives.{
  FilterNodeParams, filter_by_node_ids, filter_by_datacenters, filter_by_host_fqdn,
  is_inclusive_filtering_unspecified, include_by_filter_node_params, populate_by_common_fields,
}
use ydbops.Restarters.Unique.{IdsIdentify, merge_and_unique_iff}

-- None of the three inclusive options is given.
abbrev pub IsUnspecified : FilterNodeParams → Type 0
IsUnspecified spec =
    (spec.selected_datacenters ≡ []) × (spec.selected_hosts ≡ []) × (spec.selected_node_ids ≡ [])

-- A node is named by its datacenter, its host or its id; with no such option every node is.
abbrev pub IsNamed : FilterNodeParams → Node → Type 0
IsNamed spec node =
    IsUnspecified spec
    ⊎ Memᴰ node.data_center spec.selected_datacenters
    ⊎ Memᴰ node.host spec.selected_hosts
    ⊎ Memᴰ node.node_id spec.selected_node_ids

is_inclusive_filtering_unspecified_iff :
    (spec : FilterNodeParams)
    → (is_inclusive_filtering_unspecified spec ≡ true) ↔ IsUnspecified spec
unfolding is_inclusive_filtering_unspecified
is_inclusive_filtering_unspecified_iff spec = (ground arith, ground arith)

filter_by-contains_iff {ℓ} :
    {T : Type ℓ} ⦃c : Comparable T⦄ (f : Node → T) (wanted : List T) (nodes : List Node)
    (node : Node)
    → Memᴰ node (filter_by nodes (λ n. contains wanted (f n)))
      ↔ (Memᴰ node nodes × Memᴰ (f node) wanted)
filter_by-contains_iff f wanted nodes node = (
  (λ m.
      let (inside, h) = of_Memᴰ-filter_by (λ n. contains wanted (f n)) nodes m in
      (inside, contains-Memᴰ wanted h)),
  (λ p. Memᴰ-filter_by (λ n. contains wanted (f n)) p.0 (Memᴰ-contains p.1)),
)

abbrev included : FilterNodeParams → List Node → List Node
included spec nodes =
    filter_by_datacenters nodes spec.selected_datacenters
    ++ (filter_by_host_fqdn nodes spec.selected_hosts
        ++ filter_by_node_ids nodes spec.selected_node_ids)

module _ (spec : FilterNodeParams) (nodes : List Node) (node : Node) where
  by_datacenter :
      Memᴰ node (filter_by_datacenters nodes spec.selected_datacenters)
      ↔ (Memᴰ node nodes × Memᴰ node.data_center spec.selected_datacenters)
  unfolding filter_by_datacenters
  by_datacenter = filter_by-contains_iff (λ n. n.data_center) spec.selected_datacenters nodes node

  by_host :
      Memᴰ node (filter_by_host_fqdn nodes spec.selected_hosts)
      ↔ (Memᴰ node nodes × Memᴰ node.host spec.selected_hosts)
  unfolding filter_by_host_fqdn
  by_host = filter_by-contains_iff (λ n. n.host) spec.selected_hosts nodes node

  by_node_id :
      Memᴰ node (filter_by_node_ids nodes spec.selected_node_ids)
      ↔ (Memᴰ node nodes × Memᴰ node.node_id spec.selected_node_ids)
  unfolding filter_by_node_ids
  by_node_id = filter_by-contains_iff (λ n. n.node_id) spec.selected_node_ids nodes node

  abbrev Given : Type 0
  Given =
      Memᴰ node.data_center spec.selected_datacenters
      ⊎ Memᴰ node.host spec.selected_hosts
      ⊎ Memᴰ node.node_id spec.selected_node_ids

  of_Memᴰ-included : Memᴰ node (included spec nodes) → Memᴰ node nodes × Given
  of_Memᴰ-included m =
      elim (Memᴰ-append_cases (filter_by_datacenters nodes spec.selected_datacenters) m) [
        | inl dc ↦ let (inside, h) = by_datacenter.0 dc in (inside, inl h)
        | inr more ↦ elim (Memᴰ-append_cases (filter_by_host_fqdn nodes spec.selected_hosts) more) [
          | inl host ↦ let (inside, h) = by_host.0 host in (inside, inr (inl h))
          | inr id ↦ let (inside, h) = by_node_id.0 id in (inside, inr (inr h))
        ]
      ]

  Memᴰ-included : Memᴰ node nodes → Given → Memᴰ node (included spec nodes)
  Memᴰ-included m (inl h) = Memᴰ-append_left _ (by_datacenter.1 (m, h))
  Memᴰ-included m (inr (inl h)) =
      Memᴰ-append_right (filter_by_datacenters nodes spec.selected_datacenters)
        (Memᴰ-append_left _ (by_host.1 (m, h)))
  Memᴰ-included m (inr (inr h)) =
      Memᴰ-append_right (filter_by_datacenters nodes spec.selected_datacenters)
        (Memᴰ-append_right (filter_by_host_fqdn nodes spec.selected_hosts) (by_node_id.1 (m, h)))

specified_only {ℓ} :
    {A : Type ℓ} (spec : FilterNodeParams)
    → is_inclusive_filtering_unspecified spec ≡ false
    → IsUnspecified spec ⊎ A
    → A
specified_only spec h (inl u) = cc (h, (is_inclusive_filtering_unspecified_iff spec).1 u)
specified_only spec h (inr a) = a

IdsIdentify-included :
    (spec : FilterNodeParams) (nodes : List Node)
    → IdsIdentify nodes
    → IdsIdentify (included spec nodes ++ [])
IdsIdentify-included spec nodes same a b ma mb =
    same a b (of_Memᴰ-included spec nodes a (rw append-nil at ma)).0
      (of_Memᴰ-included spec nodes b (rw append-nil at mb)).0

module _ (spec : FilterNodeParams) (nodes : List Node) (node : Node)
    (same : IdsIdentify nodes) where
  include_by_filter_node_params_iff :
      Memᴰ node (include_by_filter_node_params nodes spec) ↔ Memᴰ node (included spec nodes ++ [])
  unfolding include_by_filter_node_params
  include_by_filter_node_params_iff =
      merge_and_unique_iff (included spec nodes ∷ []) node (IdsIdentify-included spec nodes same)

  -- Where ids identify nodes, the selection by the common options keeps the named nodes.
  pub populate_by_common_fields_iff :
      Memᴰ node (populate_by_common_fields nodes spec) ↔ (Memᴰ node nodes × IsNamed spec node)
  unfolding populate_by_common_fields
  populate_by_common_fields_iff = elim (Bool-cases (is_inclusive_filtering_unspecified spec)) [
    | inl unspecified ↦
        rw unspecified (
          (λ m. (m, inl ((is_inclusive_filtering_unspecified_iff spec).0 unspecified))),
          (λ p. p.0),
        )
    | inr specified ↦ rw specified (
      (λ m.
          let (inside, given) =
            of_Memᴰ-included spec nodes node
              (rw append-nil at (include_by_filter_node_params_iff.0 m)) in
          (inside, inr given)),
      (λ p.
          include_by_filter_node_params_iff.1 (
            rw append-nil (Memᴰ-included spec nodes node p.0 (specified_only spec specified p.1)))),
    )
  ]
