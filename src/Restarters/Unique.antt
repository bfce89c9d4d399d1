-- ===== src/Restarters/Unique.antt =====
-- `MergeAndUnique`: one node for each id, none lost, none made up.
use native.Mathlib.Decide.{ℕ_discrete}
use mathlib.Core.Logic.{⊎_elim}
use ydbops.Base.{
  ℕ, ◌≡◌, refl, inl, inr, List, [], ◌∷◌, Memᴰ, Bool-cases, ◌↔◌, Memᴰ-cons_mono, Memᴰ-cons_cases,
  num_comparable,
}
use ydbops.Collections.{contains}
use ydbops.Collections.Membership.{contains-eq-false, Memᴰ-contains}
use ydbops.Cluster.{Node}
use ydbops.Restarters.Primitives.{unique_from, concat_slices, merge_and_unique}

-- No id of the list is among `ids` or comes twice.
abbrev pub HasFreshIds : List ℕ → List Node → Type 0
HasFreshIds ids [] = Unit
HasFreshIds ids (node ∷ nodes) = (¬ Memᴰ node.node_id ids) × HasFreshIds (node.node_id ∷ ids) nodes

unique_from-HasFreshIds :
    (ids : List ℕ) (nodes : List Node) → HasFreshIds ids (unique_from ids nodes)
unfolding unique_from
unique_from-HasFreshIds ids [] = tt
unique_from-HasFreshIds ids (node ∷ nodes) = elim (Bool-cases (contains ids node.node_id)) [
  | inl seen ↦ rw seen (unique_from-HasFreshIds ids nodes)
  | inr fresh ↦
      rw fresh
        ((λ m. cc (fresh, Memᴰ-contains m)), unique_from-HasFreshIds (node.node_id ∷ ids) nodes)
]

of_Memᴰ-unique_from :
    (ids : List ℕ) (nodes : List Node) {node : Node}
    → Memᴰ node (unique_from ids nodes)
    → Memᴰ node nodes
unfolding unique_from
of_Memᴰ-unique_from ids [] m = elim m [ ]
of_Memᴰ-unique_from ids (x ∷ nodes) {node} m = elim (Bool-cases (contains ids x.node_id)) [
  | inl seen ↦ Memᴰ.tail (of_Memᴰ-unique_from ids nodes (rw seen at m))
  | inr fresh ↦ Memᴰ-cons_mono (of_Memᴰ-unique_from (x.node_id ∷ ids) nodes) (rw fresh at m)
]

-- Two nodes of the list with one id are the same node.
abbrev pub IdsIdentify : List Node → Type 0
IdsIdentify nodes = (a b : Node) → Memᴰ a nodes → Memᴰ b nodes → a.node_id ≡ b.node_id → a ≡ b

Memᴰ-unique_from :
    {node : Node} (ids : List ℕ) {nodes : List Node}
    → Memᴰ node nodes
    → IdsIdentify nodes
    → ¬ Memᴰ node.node_id ids
    → Memᴰ node (unique_from ids nodes)
unfolding unique_from
Memᴰ-unique_from {node} ids (Memᴰ.head {x} e) same new =
    rw (contains-eq-false ids (rw e at new)) (Memᴰ.head e)
Memᴰ-unique_from {node} ids (Memᴰ.tail {x} {xs} m) same new =
    elim (Bool-cases (contains ids x.node_id)) [
      | inl seen ↦ rw seen (Memᴰ-unique_from ids m rest_same new)
      | inr fresh ↦ rw fresh (elim (ℕ_discrete node.node_id x.node_id) [
        | yes e ↦ Memᴰ.head (same node x (Memᴰ.tail m) (Memᴰ.head refl) e)
        | no other ↦ Memᴰ.tail (
            Memᴰ-unique_from (x.node_id ∷ ids) m rest_same
              (λ inside. ⊎_elim other new (Memᴰ-cons_cases inside)))
      ])
    ]
  where
    rest_same : IdsIdentify xs
    rest_same a b ma mb = same a b (Memᴰ.tail ma) (Memᴰ.tail mb)

-- Where an id stands for one node, merging keeps exactly the nodes of the slices.
pub merge_and_unique_iff :
    (slices : List (List Node)) (node : Node)
    → IdsIdentify (concat_slices slices)
    → Memᴰ node (merge_and_unique slices) ↔ Memᴰ node (concat_slices slices)
unfolding merge_and_unique
merge_and_unique_iff slices node same = (
  of_Memᴰ-unique_from [] (concat_slices slices),
  λ m. Memᴰ-unique_from [] m same (λ none_yet. elim none_yet [ ]),
)

-- No two nodes of a merged list have one id.
pub merge_and_unique-HasFreshIds :
    (slices : List (List Node)) → HasFreshIds [] (merge_and_unique slices)
unfolding merge_and_unique
merge_and_unique-HasFreshIds slices = unique_from-HasFreshIds [] (concat_slices slices)
