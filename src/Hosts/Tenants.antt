-- ===== src/Hosts/Tenants.antt =====
-- `PopulateTenantToNodesMapping` of pkg/utils/utils.go, and what it makes of the tenant filter.
use ydbops.Base.{
  ℕ, ◌≡◌, refl, sym, ap, ◌↔◌, ◌⊎◌, inl, inr, String, Option, none, some, List, [], ◌∷◌, Memᴰ,
  Bool-cases, ◌==◌, text_comparable, Memᴰ-append_cases, Memᴰ-append_left, Memᴰ-append_right,
  Memᴰ-cons_cases, eq_of_==, ==_refl,
}
use ydbops.Collections.{get, or_empty}
use ydbops.Collections.Maps.{get-put}
use ydbops.Cluster.{Node}
use ydbops.Hosts.{add_tenant, map_tenants_from, populate_tenant_to_nodes_mapping}

abbrev pub ids_of : List (String × List ℕ) → String → List ℕ
ids_of m tenant = or_empty (get m tenant)

-- The node with the id is a dynamic node of the tenant.
abbrev pub Serves : List Node → String → ℕ → Type 0
Serves nodes tenant id =
    (node : Node) × Memᴰ node nodes × (node.dynamic ≡ some tenant) × (node.node_id ≡ id)

module _ (m : List (String × List ℕ)) (node_id id : ℕ) (tenant : String) where
  of_add_tenant :
      (dynamic : Option String)
      → Memᴰ id (ids_of (add_tenant m node_id dynamic) tenant)
      → Memᴰ id (ids_of m tenant) ⊎ ((dynamic ≡ some tenant) × (node_id ≡ id))
  of_add_tenant none h = inl h
  of_add_tenant (some t) h = elim (Bool-cases (t == tenant)) [
    | inl same ↦
        let e = eq_of_== t tenant same in
        elim (Memᴰ-append_cases (ids_of m t) (rw (get-put, same) at h)) [
          | inl old ↦ inl (rw e at old)
          | inr new ↦ elim (Memᴰ-cons_cases new) [
            | inl this ↦ inr (ap some e, sym this)
            | inr nothing ↦ elim nothing [ ]
          ]
        ]
    | inr other ↦ inl (rw (get-put, other) at h)
  ]

  kept_by_add_tenant :
      (dynamic : Option String)
      → Memᴰ id (ids_of m tenant)
      → Memᴰ id (ids_of (add_tenant m node_id dynamic) tenant)
  kept_by_add_tenant none h = h
  kept_by_add_tenant (some t) h = rw get-put (elim (Bool-cases (t == tenant)) [
    | inl same ↦ rw same (Memᴰ-append_left (node_id ∷ []) (rw (eq_of_== t tenant same) h))
    | inr other ↦ rw other h
  ])

  added_by_add_tenant : node_id ≡ id → Memᴰ id (ids_of (add_tenant m node_id (some tenant)) tenant)
  added_by_add_tenant e =
      rw (get-put, ==_refl tenant) (Memᴰ-append_right (ids_of m tenant) (Memᴰ.head (sym e)))

of_map_tenants_from :
    (m : List (String × List ℕ)) (nodes : List Node) (tenant : String) (id : ℕ)
    → Memᴰ id (ids_of (map_tenants_from m nodes) tenant)
    → Memᴰ id (ids_of m tenant) ⊎ Serves nodes tenant id
unfolding map_tenants_from
of_map_tenants_from m [] tenant id h = inl h
of_map_tenants_from m (x ∷ nodes) tenant id h =
    elim (of_map_tenants_from (add_tenant m x.node_id x.dynamic) nodes tenant id h) [
      | inl before ↦ elim (of_add_tenant m x.node_id id tenant x.dynamic before) [
        | inl old ↦ inl old
        | inr (dyn, e) ↦ inr (x, Memᴰ.head refl, dyn, e)
      ]
      | inr (node, inside, dyn, e) ↦ inr (node, Memᴰ.tail inside, dyn, e)
    ]

kept_by_map_tenants :
    (m : List (String × List ℕ)) (nodes : List Node) (tenant : String) (id : ℕ)
    → Memᴰ id (ids_of m tenant)
    → Memᴰ id (ids_of (map_tenants_from m nodes) tenant)
unfolding map_tenants_from
kept_by_map_tenants m [] tenant id h = h
kept_by_map_tenants m (x ∷ nodes) tenant id h =
    kept_by_map_tenants (add_tenant m x.node_id x.dynamic) nodes tenant id
      (kept_by_add_tenant m x.node_id id tenant x.dynamic h)

added_by_map_tenants :
    {node : Node} (m : List (String × List ℕ)) (tenant : String) {nodes : List Node}
    → Memᴰ node nodes
    → node.dynamic ≡ some tenant
    → Memᴰ node.node_id (ids_of (map_tenants_from m nodes) tenant)
unfolding map_tenants_from
added_by_map_tenants {node} m tenant (Memᴰ.head {x} {xs} e) dyn =
    kept_by_map_tenants (add_tenant m x.node_id x.dynamic) xs tenant node.node_id
      (rw (← e, dyn) (added_by_add_tenant m node.node_id node.node_id tenant refl))
added_by_map_tenants m tenant (Memᴰ.tail {x} {xs} inside) dyn =
    added_by_map_tenants (add_tenant m x.node_id x.dynamic) tenant inside dyn

-- The map gives a tenant exactly the ids of the dynamic nodes that serve it; a tenant that no node
-- serves has none.
pub populate_tenant_to_nodes_mapping_iff :
    (nodes : List Node) (tenant : String) (id : ℕ)
    → Memᴰ id (ids_of (populate_tenant_to_nodes_mapping nodes) tenant) ↔ Serves nodes tenant id
unfolding populate_tenant_to_nodes_mapping get
populate_tenant_to_nodes_mapping_iff nodes tenant id = (
  (λ h. elim (of_map_tenants_from [] nodes tenant id h) [
    | inl m ↦ absurd (nothing_yet m)
    | inr s ↦ s
  ]),
  (λ (node, inside, dyn, e). rw (← e) (added_by_map_tenants [] tenant inside dyn)),
)
  where
    nothing_yet : ¬ Memᴰ id (ids_of [] tenant)
    nothing_yet m = elim m [ ]
