-- ===== src/Rolling/Dispatch.antt =====
-- `dispatchActions` of rolling.go: what the batches hold.
use ydbops.Base.{
  ℕ, ◌+◌, ◌≡◌, refl, ◌∙◌, ap, ◌⊎◌, inl, inr, String, true, false, some, List, [], ◌∷◌, arith,
  Bool-cases, Option-cases, ltb, All, num_comparable, text_comparable,
}
use ydbops.Collections.{convert, get, group_by_func}
use ydbops.Collections.Groups.{sum_of, total, total-group_by_func, Grouped, Grouped-group_by_func}
use ydbops.Cluster.{Node, ActionGroupStates, Scope, get_node_id}
use ydbops.Rolling.State.{Limits, State}
use ydbops.Rolling.Actions.{
  ok, ◌>>=◌, lock_of, node_of, contains_storage, is_storage_node, get_state_node_tenant, tenants_of,
  snd_all, dispatch_actions,
}
use ydbops.Rolling.Split.{IsKnown}

-- The group locks a node that the state knows, and the node is a dynamic one of the tenant.
pub data IsOfTenant (r : State) (gs : ActionGroupStates) (tenant : String) : Type 0 where
  of_tenant :
      (scope : Scope) (node : Node)
      → gs.first_state.lock ≡ some scope
      → get r.nodes (get_node_id scope) ≡ some node
      → node.dynamic ≡ some tenant
      → IsOfTenant r gs tenant

get_state_node_tenant-IsOfTenant :
    (r : State) (gs : ActionGroupStates) (tenant : String)
    → IsOfTenant r gs tenant
    → get_state_node_tenant r gs ≡ ok tenant
unfolding get_state_node_tenant
get_state_node_tenant-IsOfTenant r gs tenant (of_tenant scope node locked known dynamic) =
    rw (locked, known, dynamic) refl

-- A group on a node of a tenant.
abbrev pub HasTenant : State → ActionGroupStates → Type 0
HasTenant r gs = (tenant : String) × IsOfTenant r gs tenant

IsKnown-cases :
    (r : State) (gs : ActionGroupStates)
    → IsKnown r gs
    → ((lock_of gs >>= λ scope. ok (is_storage_node (node_of r scope))) ≡ ok true)
      ⊎ (((lock_of gs >>= λ scope. ok (is_storage_node (node_of r scope))) ≡ ok false)
          × HasTenant r gs)
unfolding get_state_node_tenant
IsKnown-cases r gs (scope, locked, (node, known)) = elim (Option-cases node.dynamic) [
  | inl storage ↦ inl (rw (locked, known, storage) refl)
  | inr (tenant, dynamic) ↦
      inr (rw (locked, known, dynamic) refl, (tenant, of_tenant scope node locked known dynamic))
]

-- A node that holds storage is found, or each group is on a node of a tenant.
contains_storage-cases :
    (r : State) (actions : List ActionGroupStates)
    → All (IsKnown r) actions
    → (contains_storage r actions ≡ ok true)
      ⊎ ((contains_storage r actions ≡ ok false) × All (HasTenant r) actions)
unfolding contains_storage
contains_storage-cases r [] h = inr (refl, tt)
contains_storage-cases r (gs ∷ actions) (known, h) = elim (IsKnown-cases r gs known) [
  | inl storage ↦ inl (rw storage refl)
  | inr (dynamic, tenant) ↦ elim (contains_storage-cases r actions h) [
    | inl storage ↦ inl (rw (dynamic, storage) refl)
    | inr (none_left, tenants) ↦ inr (rw (dynamic, none_left) refl, (tenant, tenants))
  ]
]

-- A group listed with its tenant.
abbrev IsTenant : State → String → String × ActionGroupStates → Type 0
IsTenant r tenant (named, gs) = (named ≡ tenant) × IsOfTenant r gs tenant

record Listed {ℓ} (r : State) (P : ActionGroupStates → Type ℓ) (actions : List ActionGroupStates)
    : Type ℓ where
  pairs : List (String × ActionGroupStates)
  found : tenants_of r actions ≡ ok pairs
  same_sum : (f : ActionGroupStates → ℕ) → sum_of (λ (tenant, gs). f gs) pairs ≡ sum_of f actions
  listed : All (λ p. IsTenant r p.0 p × P p.1) pairs

tenants_of_lem {ℓ} :
    (r : State) (P : ActionGroupStates → Type ℓ) (actions : List ActionGroupStates)
    → All (HasTenant r) actions
    → All P actions
    → Listed r P actions
unfolding tenants_of
tenants_of_lem r P [] h k = record { pairs = []; found = refl; same_sum = λ f. refl; listed = tt }
tenants_of_lem r P (gs ∷ actions) ((tenant, e), h) (p, k) =
    let rest = tenants_of_lem r P actions h k in
    record {
      pairs = (tenant, gs) ∷ rest.pairs;
      found = rw (get_state_node_tenant-IsOfTenant r gs tenant e, rest.found) refl;
      same_sum = λ f. ap (λ t. f gs + t) (rest.same_sum f);
      listed = (((refl, e), p), rest.listed);
    }

-- The sum of a weight over all batches.
abbrev pub batch_total : (ActionGroupStates → ℕ) → List (List ActionGroupStates) → ℕ
batch_total f [] = 0
batch_total f (batch ∷ batches) = sum_of f batch + batch_total f batches

-- Every weight has the same sum over the batches and over the groups: each group stands in the batches
-- as often as it is given.
abbrev pub HoldsEach : List (List ActionGroupStates) → List ActionGroupStates → Type 0
HoldsEach batches groups = (f : ActionGroupStates → ℕ) → batch_total f batches ≡ sum_of f groups

sum_of-convert :
    (f : ActionGroupStates → ℕ) (pairs : List (String × ActionGroupStates))
    → sum_of f (convert pairs (λ p. p.1)) ≡ sum_of (λ (tenant, gs). f gs) pairs
sum_of-convert f [] = refl
sum_of-convert f ((tenant, gs) ∷ pairs) = ap (λ t. f gs + t) (sum_of-convert f pairs)

batch_total-snd_all :
    (f : ActionGroupStates → ℕ) (groups : List (String × List (String × ActionGroupStates)))
    → batch_total f (snd_all groups) ≡ total (λ (tenant, gs). f gs) groups
batch_total-snd_all f [] = refl
batch_total-snd_all f ((tenant, pairs) ∷ groups) =
    omega (arith, sum_of-convert f pairs, batch_total-snd_all f groups)

-- The groups of one batch are on nodes of one tenant, and all have the property.
abbrev pub OneTenant {ℓ} : State → (ActionGroupStates → Type ℓ) → List ActionGroupStates → Type ℓ
OneTenant r P batch = (tenant : String) × All (λ gs. IsOfTenant r gs tenant × P gs) batch

module _ {ℓ} (r : State) (P : ActionGroupStates → Type ℓ) where
  OneTenant-convert :
      (tenant : String) (pairs : List (String × ActionGroupStates))
      → All (λ p. IsTenant r tenant p × P p.1) pairs
      → All (λ gs. IsOfTenant r gs tenant × P gs) (convert pairs (λ p. p.1))
  OneTenant-convert tenant [] h = tt
  OneTenant-convert tenant ((named, gs) ∷ pairs) (((same, e), p), h) =
      ((e, p), OneTenant-convert tenant pairs h)

  OneTenant-snd_all :
      (groups : List (String × List (String × ActionGroupStates)))
      → Grouped (λ tenant p. IsTenant r tenant p × P p.1) groups
      → All (OneTenant r P) (snd_all groups)
  OneTenant-snd_all [] h = tt
  OneTenant-snd_all ((tenant, pairs) ∷ groups) (q, h) =
      ((tenant, OneTenant-convert tenant pairs q), OneTenant-snd_all groups h)

  -- What is dispatched by tenant.
  abbrev by_tenant : List (String × ActionGroupStates) → List (List ActionGroupStates)
  by_tenant pairs = snd_all (group_by_func pairs (λ p. p.0))

  by_tenant_lem :
      (actions : List ActionGroupStates)
      → All (HasTenant r) actions
      → All P actions
      → (batches : List (List ActionGroupStates)) × ((tenants_of r actions >>= λ pairs.
            ok (by_tenant pairs))
          ≡ ok batches)
        × (HoldsEach batches actions)
        × All (OneTenant r P) batches
  by_tenant_lem actions h k =
      let found = tenants_of_lem r P actions h k in
      let groups = group_by_func found.pairs (λ p. p.0) in
      (
        by_tenant found.pairs,
        rw found.found refl,
        (λ f.
            batch_total-snd_all f groups
            ∙ (total-group_by_func (λ (tenant, gs). f gs) found.pairs (λ p. p.0)
                ∙ found.same_sum f)),
        OneTenant-snd_all groups (
            Grouped-group_by_func (λ tenant p. IsTenant r tenant p × P p.1) found.pairs (λ p. p.0)
              found.listed),
      )

  forget_tenant :
      (batch : List ActionGroupStates) (tenant : String)
      → All (λ gs. IsOfTenant r gs tenant × P gs) batch
      → All P batch
  forget_tenant [] tenant h = tt
  forget_tenant (gs ∷ batch) tenant ((e, p), h) = (p, forget_tenant batch tenant h)

  forget_tenants :
      (batches : List (List ActionGroupStates)) → All (OneTenant r P) batches → All (All P) batches
  forget_tenants [] h = tt
  forget_tenants (batch ∷ batches) ((tenant, q), h) =
      (forget_tenant batch tenant q, forget_tenants batches h)

  -- On known nodes `dispatchActions` does not panic, whatever the options: each group goes to a restart
  -- handler as often as it is given, since any weight of the groups has the same sum over the batches
  -- and over the groups; and what holds of all the groups holds of all groups of the batches.
  pub dispatch_actions_lem :
      (limits : Limits) (actions : List ActionGroupStates)
      → All (IsKnown r) actions
      → All P actions
      → (batches : List (List ActionGroupStates)) × (dispatch_actions limits r actions ≡ ok batches)
        × (HoldsEach batches actions)
        × All (All P) batches
  unfolding dispatch_actions
  dispatch_actions_lem limits actions known k = elim (contains_storage-cases r actions known) [
    | inl storage ↦ (actions ∷ [], rw storage refl, (λ f. omega arith), (k, tt))
    | inr (none_left, tenants) ↦ elim (Bool-cases (ltb 0 limits.tenants_inflight)) [
      | inr all_at_once ↦
          (actions ∷ [], rw (none_left, all_at_once) refl, (λ f. omega arith), (k, tt))
      | inl limited ↦
          let (batches, e, n, q) = by_tenant_lem actions tenants k in
          (batches, rw (none_left, limited) e, n, forget_tenants batches q)
    ]
  ]

  -- On known nodes, with a limit on the tenants and no group on a node that holds storage, each group is
  -- dispatched as often as it is given, and the groups of a batch lock dynamic nodes of one tenant.
  pub dispatch_by_tenant_lem :
      (limits : Limits) (actions : List ActionGroupStates)
      → All (IsKnown r) actions
      → All P actions
      → contains_storage r actions ≡ ok false
      → ltb 0 limits.tenants_inflight ≡ true
      → (batches : List (List ActionGroupStates)) × (dispatch_actions limits r actions ≡ ok batches)
        × (HoldsEach batches actions)
        × All (OneTenant r P) batches
  unfolding dispatch_actions
  dispatch_by_tenant_lem limits actions known k none_left limited =
      elim (contains_storage-cases r actions known) [
        | inl storage ↦ absurd cc
        | inr (again, tenants) ↦
            let (batches, e, n, q) = by_tenant_lem actions tenants k in
            (batches, rw (none_left, limited) e, n, q)
      ]
