-- ===== src/Restarters/Tests.antt =====
-- The restarters' filters at a cluster of three nodes.
use ydbops.Base.{
  ℕ, ◌≡◌, ◌≢◌, ◌↔◌, String, Bool, true, false, Option, none, some, List, [], ◌∷◌, Memᴰ,
  Memᴰ-cons_cases, ◌⊎◌, inl, inr, arith, ap, sym, ◌∙◌,
}
use ydbops.Cluster.{Node, ItemState}
use ydbops.Restarters.Primitives.{FilterNodeParams, ClusterNodesInfo}
use ydbops.Restarters.{run, filter, filter_storage, filter_tenant}
use ydbops.Restarters.Kept.{Kept}
use ydbops.Restarters.Unique.{IdsIdentify}
use ydbops.Restarters.Selection.{IsNamed}
use ydbops.Restarters.Exact.{IsStatic, IsInTenants, filter_storage_iff, filter_tenant_iff}
use ydbops.Restarters.NoRepeats.{HasDistinctIds, filter-HasDistinctIds}

abbrev node_at : ℕ → Bool → Option String → Node
node_at id stores tenant = record {
  node_id = id;
  host = "host.net";
  port = 19001;
  version = "24.1.2";
  data_center = "dc";
  has_storage = stores;
  dynamic = tenant;
  start_time = none;
  item_state = ItemState.up;
}

abbrev two_nodes : List Node
two_nodes = node_at 1 true none ∷ node_at 2 false (some "/root/db") ∷ []

abbrev two_node_cluster : ClusterNodesInfo
two_node_cluster = record { all_nodes = two_nodes; tenant_to_node_ids = ("/root/db", 2 ∷ []) ∷ [] }

abbrev everything : FilterNodeParams
everything = record {
  version = none;
  started_time = none;
  exclude_hosts = "7" ∷ [];
  selected_tenants = [];
  selected_node_ids = 1 ∷ 2 ∷ [];
  selected_hosts = [];
  selected_datacenters = [];
  max_static_node_id = 50000;
}

one_or_two :
    {a : Node}
    → Memᴰ a two_nodes
    → (a ≡ node_at 1 true none) ⊎ (a ≡ node_at 2 false (some "/root/db"))
one_or_two (Memᴰ.head e) = inl e
one_or_two (Memᴰ.tail (Memᴰ.head e)) = inr e
one_or_two (Memᴰ.tail (Memᴰ.tail m)) = elim m [ ]

other_id :
    {a b : Node}
    → a ≡ node_at 1 true none
    → b ≡ node_at 2 false (some "/root/db")
    → a.node_id ≢ b.node_id
other_id e e' h = absurd (omega (arith, h, ap (λ n. n.node_id) e, ap (λ n. n.node_id) e'))

two_nodes-IdsIdentify : IdsIdentify two_nodes
two_nodes-IdsIdentify a b m m' h = elim (one_or_two m) [
  | inl e ↦ elim (one_or_two m') [ inl e' ↦ e ∙ sym e' | inr e' ↦ absurd (other_id e e' h) ]
  | inr e ↦ elim (one_or_two m') [ inl e' ↦ absurd (other_id e' e (sym h)) | inr e' ↦ e ∙ sym e' ]
]

filter_storage_iff_example :
    Memᴰ (node_at 1 true none) (filter_storage everything two_node_cluster) ↔ (
      Memᴰ (node_at 1 true none) two_nodes
      × IsStatic everything (node_at 1 true none)
      × IsNamed everything (node_at 1 true none)
      × Kept everything (node_at 1 true none))
filter_storage_iff_example =
    filter_storage_iff everything two_node_cluster (node_at 1 true none) two_nodes-IdsIdentify

filter_tenant_iff_example :
    Memᴰ (node_at 2 false (some "/root/db")) (filter_tenant everything two_node_cluster) ↔ (
      Memᴰ (node_at 2 false (some "/root/db")) two_nodes
      × ((node_at 2 false (some "/root/db")).dynamic ≢ none)
      × IsNamed everything (node_at 2 false (some "/root/db"))
      × IsInTenants everything two_node_cluster (node_at 2 false (some "/root/db"))
      × Kept everything (node_at 2 false (some "/root/db")))
filter_tenant_iff_example =
    filter_tenant_iff everything two_node_cluster (node_at 2 false (some "/root/db"))
      two_nodes-IdsIdentify

two_nodes-HasDistinctIds : HasDistinctIds two_nodes
two_nodes-HasDistinctIds = (
  (λ m. elim m [ ]),
  ((λ m. elim (Memᴰ-cons_cases m) [ inl e ↦ absurd (omega (arith, e)) | inr n ↦ elim n [ ] ]), tt),
)

filter-HasDistinctIds_example :
    HasDistinctIds (filter [] (run true false) everything two_node_cluster).1
filter-HasDistinctIds_example =
    filter-HasDistinctIds everything two_node_cluster two_nodes-HasDistinctIds [] (run true false)
