-- ===== src/Cms/Finished.antt =====
-- `CompleteActions` of pkg/client/cms/maintenance.go: which actions it reports.
use mathlib.Core.Path.{subst}
use ydbops.Base.{
  ℕ, ◌≡◌, refl, sym, ◌∙◌, ap, inl, inr, Bool, not, String, Option, none, some, List, [], ◌∷◌, ◌==◌,
  Comparable, num_comparable, text_comparable, Bool-cases, Option-cases, Memᴰ, Memᴰ-cons_cases,
  eq_of_==,
}
use ydbops.Collections.{get, put}
use ydbops.Collections.Maps.{get-put}
use ydbops.Cluster.{ActionUid, ActionGroupStates, Scope, get_node_id, get_host}
use ydbops.Hosts as Hosts
use ydbops.Hosts.{get_node_ids}
use ydbops.Cms.{
  or_not_found, CompleteError, Found, found, missing, ◌>>=◌, Index, index_scope, index_actions,
  get_finished_actions, actions_to_complete,
}

-- The action locks the scope.
abbrev pub Locks : ActionGroupStates → Scope → Type 0
Locks gs scope = gs.first_state.lock ≡ some scope

-- The action of a group that locks the node.
abbrev pub IsNodeAction : List ActionGroupStates → ℕ → ActionUid → Type 0
IsNodeAction groups node_id uid =
    (gs : ActionGroupStates) × Memᴰ gs groups
    × (uid ≡ gs.first_state.action_uid)
    × ((scope : Scope) × Locks gs scope × (get_node_id scope ≡ node_id))

abbrev Indexes : List ActionGroupStates → Index → Type 0
Indexes groups index =
    (node_id : ℕ) (uid : ActionUid)
    → get index.by_id node_id ≡ some uid
    → IsNodeAction groups node_id uid

some-injective {ℓ} : {A : Type ℓ} {a b : A} → some a ≡ some b → a ≡ b
some-injective e = cc

-- An entry that is put for a node.
Indexes-put :
    (groups : List ActionGroupStates) (index : Index) (gs : ActionGroupStates) (scope : Scope)
    → Memᴰ gs groups
    → Locks gs scope
    → Indexes groups index
    → Indexes groups
        (record index { by_id = put index.by_id (get_node_id scope) gs.first_state.action_uid })
Indexes-put groups index gs scope inside locks h node_id uid e =
    let e' = sym (get-put index.by_id (get_node_id scope) node_id gs.first_state.action_uid) ∙ e in
    elim (Bool-cases (get_node_id scope == node_id)) [
      | inl same ↦ (
        gs,
        inside,
        sym (some-injective (rw same at e')),
        (scope, locks, eq_of_== (get_node_id scope) node_id same),
      )
      | inr other ↦ h node_id uid (rw other at e')
    ]

bind-found {ℓ κ} :
    {A : Type ℓ} {B : Type κ} (o : Found A) (f : A → Found B) {b : B}
    → o >>= f ≡ found b
    → (a : A) × (o ≡ found a) × (f a ≡ found b)
bind-found (found a) f e = (a, refl, e)
bind-found (missing err) f e = cc

found-injective {ℓ} : {A : Type ℓ} {a b : A} → found a ≡ found b → a ≡ b
found-injective e = cc

missing_clash {ℓ} : {A : Type ℓ} {err : CompleteError} {a : A} → ¬ (missing err ≡ found a)
missing_clash e = cc

index_scope-some :
    (groups : List ActionGroupStates) (index index' : Index) (gs : ActionGroupStates)
    (scope : Scope)
    → Memᴰ gs groups
    → Locks gs scope
    → Indexes groups index
    → index_scope index gs.first_state.action_uid (some scope) ≡ found index'
    → Indexes groups index'
index_scope-some groups index index' gs scope inside locks h e =
    elim (Bool-cases (not (get_host scope == ""))) [
      | inl by_name ↦ subst (Indexes groups) (found-injective (rw by_name at e)) h
      | inr no_name ↦ elim (Bool-cases (not (get_node_id scope == 0))) [
        | inl by_number ↦
            subst (Indexes groups) (found-injective (rw (no_name, by_number) at e))
              (Indexes-put groups index gs scope inside locks h)
        | inr no_number ↦ absurd (missing_clash (rw (no_name, no_number) at e))
      ]
    ]

index_actions-Indexes :
    (groups : List ActionGroupStates) (index index' : Index) (rest : List ActionGroupStates)
    → ((gs : ActionGroupStates) → Memᴰ gs rest → Memᴰ gs groups)
    → Indexes groups index
    → index_actions index rest ≡ found index'
    → Indexes groups index'
unfolding index_actions
index_actions-Indexes groups index index' [] within h e =
    subst (Indexes groups) (found-injective e) h
index_actions-Indexes groups index index' (gs ∷ rest) within h e =
    let (index₁, e₁, e₂) =
      bind-found (index_scope index gs.first_state.action_uid gs.first_state.lock)
        (λ i. index_actions i rest) e in
    elim (Option-cases gs.first_state.lock) [
      | inl other_kind ↦ absurd (missing_clash (rw other_kind at e₁))
      | inr (scope, locks) ↦
          index_actions-Indexes groups index₁ index' rest (λ g m. within g (Memᴰ.tail m))
            (index_scope-some groups index index₁ gs scope (within gs (Memᴰ.head refl)) locks h
              (rw locks at e₁))
            e₂
    ]

some_of_found : {A : Type 0} (o : Option A) {a : A} → or_not_found o ≡ found a → o ≡ some a
some_of_found none e = cc
some_of_found (some a) e = ap some (found-injective e)

-- What is reported comes from the map, for a key of the list.
get_finished_actions-Memᴰ {ℓ} :
    {K : Type ℓ} ⦃c : Comparable K⦄ (nodes : List K) (m : List (K × ActionUid))
    (uids : List ActionUid)
    → get_finished_actions nodes m ≡ found uids
    → (uid : ActionUid) → Memᴰ uid uids
    → (node : K) × Memᴰ node nodes × (get m node ≡ some uid)
unfolding get_finished_actions
get_finished_actions-Memᴰ [] m uids e uid inside =
    elim (subst (Memᴰ uid) (sym (found-injective e)) inside) [ ]
get_finished_actions-Memᴰ (node ∷ nodes) m uids e uid inside =
    let (first, e₁, e₂) =
      bind-found (or_not_found (get m node))
        (λ u. get_finished_actions nodes m >>= λ others. found (u ∷ others)) e in
    let (others, e₃, e₄) =
      bind-found (get_finished_actions nodes m) (λ others. found (first ∷ others)) e₂ in
    elim (Memᴰ-cons_cases (subst (Memᴰ uid) (sym (found-injective e₄)) inside)) [
      | inl here ↦ (node, Memᴰ.head refl, some_of_found (get m node) e₁ ∙ ap some (sym here))
      | inr there ↦
          let (node', m', e') = get_finished_actions-Memᴰ nodes m others e₃ uid there in
          (node', Memᴰ.tail m', e')
    ]

-- Where the hosts read as node ids and `CompleteActions` comes to a report, each action that it reports
-- is the action of a group of the task whose scope names one of these nodes.
pub actions_to_complete-node_ids :
    (url_parses : String → Bool) (groups : List ActionGroupStates) (hosts : List String)
    (node_ids : List ℕ) (uids : List ActionUid) (uid : ActionUid)
    → get_node_ids hosts ≡ Hosts.ok node_ids
    → actions_to_complete url_parses groups hosts ≡ found uids
    → Memᴰ uid uids
    → (node_id : ℕ) × Memᴰ node_id node_ids × IsNodeAction groups node_id uid
unfolding actions_to_complete get
actions_to_complete-node_ids url_parses groups hosts node_ids uids uid ids e inside =
    let empty : Index = record { by_fqdn = []; by_id = [] } in
    let (index, e₁, e₂) =
      bind-found (index_actions empty groups) (λ i. get_finished_actions node_ids i.by_id)
        (rw ids at e) in
    let (node_id, node_in, got) =
      get_finished_actions-Memᴰ node_ids index.by_id uids e₂ uid inside in
    (
      node_id,
      node_in,
      index_actions-Indexes groups empty index groups (λ gs m. m) (λ n u none_yet. cc) e₁ node_id
          uid got,
    )
