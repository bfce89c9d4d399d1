-- ===== src/Rolling/Actions.antt =====
-- rolling.go: `getPerformedActions`, `processActionGroupStates`, `dispatchActions` and the two ways
-- to dispatch. Log lines are left out, but for the fields that they read of a nil node.
use ydbops.Base.{
  ℕ, String, Bool, true, false, not, Option, none, some, List, [], ◌∷◌, ◌++◌, ◌==◌, ltb, leb,
  if◌then◌else◌, length, num_comparable, text_comparable,
}
use ydbops.Base.Int.{ℤ, pos, negsuc, mul64}
use ydbops.Collections.{contains, filter_by, get, group_by_func, convert}
use ydbops.Cluster.{Node, ActionUid, ActionGroupStates, Scope, get_node_id, is_performed}
use ydbops.Rolling.State.{Limits, State, Event, handle_restart_status}

-- A run may panic.
pub data Outcome {ℓ} (A : Type ℓ) : Type ℓ where
  ok : A → Outcome A
  panic : Outcome A

infixl 5 ◌>>=◌
abbrev pub ◌>>=◌ {ℓ κ} : {A : Type ℓ} {B : Type κ} → Outcome A → (A → Outcome B) → Outcome B
ok a >>= f = f a
panic >>= f = panic

abbrev pub uid_of : ActionGroupStates → ActionUid
uid_of gs = gs.first_state.action_uid

abbrev pub id_of : ActionGroupStates → String
id_of gs = gs.first_state.action_uid.action_id

-- Every group is taken to have a first action state; on one without, the index of the slice would panic.
unfoldable pub get_performed_actions : List ActionGroupStates → List ActionGroupStates
get_performed_actions actions = filter_by actions (λ gs. is_performed gs.first_state.status)

-- The scope of the lock, or the panic on an action of another kind.
abbrev pub lock_of : ActionGroupStates → Outcome Scope
lock_of gs = elim gs.first_state.lock [ none ↦ panic | some scope ↦ ok scope ]

-- `r.state.nodes[lock.Scope.GetNodeId()]`, `none` for nil.
abbrev pub node_of : State → Scope → Option Node
node_of r scope = get r.nodes (get_node_id scope)

-- A read of a field through a pointer.
abbrev pub deref {ℓ} : {A : Type ℓ} → Option A → Outcome A
deref none = panic
deref (some a) = ok a

-- `atomicHasActionInUnreported`
unfoldable pub has_action_in_unreported : State → String → Bool
has_action_in_unreported r action_id = contains r.unreported_but_finished_action_ids action_id

-- The loop over the performed groups: what is finished already is reported again, the rest is to be
-- restarted. The result is the state and `filteredActions`.
unfoldable pub split_finished :
    State → List ActionGroupStates → Outcome (State × List ActionGroupStates)
split_finished r [] = ok (r, [])
split_finished r (gs ∷ performed) =
    let again =
      split_finished (record r { completed_actions = r.completed_actions ++ uid_of gs ∷ [] })
        performed in
    let fresh = split_finished r performed in
    lock_of gs >>= λ scope.
    if has_action_in_unreported r (id_of gs)
    then deref (node_of r scope) >>= (λ node. again)
    else fresh >>= λ (r', filtered). ok (r', gs ∷ filtered)

-- `GetDynamic() == nil` holds of a nil node too.
abbrev pub is_storage_node : Option Node → Bool
is_storage_node none = true
is_storage_node (some node) = elim node.dynamic [ none ↦ true | some tenant ↦ false ]

abbrev pub is_storage_node_action_group_state : State → ActionGroupStates → Outcome Bool
is_storage_node_action_group_state r gs =
    lock_of gs >>= λ scope. ok (is_storage_node (node_of r scope))

-- `slices.ContainsFunc` stops at the first hit.
unfoldable pub contains_storage : State → List ActionGroupStates → Outcome Bool
contains_storage r [] = ok false
contains_storage r (gs ∷ actions) =
    let rest = contains_storage r actions in
    is_storage_node_action_group_state r gs >>= λ storage. if storage then ok true else rest

-- The tenant is read through the dynamic part of the node.
unfoldable pub get_state_node_tenant : State → ActionGroupStates → Outcome String
get_state_node_tenant r gs =
    lock_of gs >>= λ scope. deref (node_of r scope) >>= λ node. deref node.dynamic

unfoldable pub tenants_of :
    State → List ActionGroupStates → Outcome (List (String × ActionGroupStates))
tenants_of r [] = ok []
tenants_of r (gs ∷ actions) = get_state_node_tenant r gs >>= λ tenant.
    tenants_of r actions >>= λ rest. ok ((tenant, gs) ∷ rest)

abbrev pub snd_all :
    List (String × List (String × ActionGroupStates)) → List (List ActionGroupStates)
snd_all groups = convert groups (λ g. convert g.1 (λ p. p.1))

-- The batches that `dispatchActions` hands to a restart handler each: one with everything, or one
-- for each tenant. A panic in `getStateNodeTenant` comes while the groups are formed.
unfoldable pub dispatch_actions :
    Limits → State → List ActionGroupStates → Outcome (List (List ActionGroupStates))
dispatch_actions limits r actions = contains_storage r actions >>= λ storage.
    if storage
    then ok (actions ∷ [])
    else if ltb 0 limits.tenants_inflight
    then (tenants_of r actions >>= λ pairs. ok (snd_all (group_by_func pairs (λ p. p.0))))
    else ok (actions ∷ [])

-- What a pass meets outside: the statuses of the restarts of the batches, in the order in which they
-- are taken, and the answer of CMS to `CompleteAction`, the number of its action statuses, `none`
-- for an error.
pub record Environment : Type 0 where
  pub restarts : List (List ActionGroupStates) → List Event
  pub complete_action : List ActionUid → Option ℕ

abbrev pub is_negative : ℤ → Bool
is_negative (pos n) = false
is_negative (negsuc n) = true

abbrev pub close_pass : ℕ → State → Option ℕ → State × Bool
close_pass n_actions r none = (r, false)
close_pass n_actions r (some n_statuses) =
    (record r { unreported_but_finished_action_ids = [] }, n_actions == n_statuses)

-- What was handed to the restart handlers, the state, and whether the restart is complete.
abbrev pub PassResult : Type 0
PassResult = List (List ActionGroupStates) × (State × Bool)

abbrev pub run_batches :
    Limits
    → Environment
    → ℕ
    → State
    → List ActionGroupStates
    → List (List ActionGroupStates)
    → PassResult
run_batches limits env n_actions r filtered batches =
    let r' =
      handle_restart_status limits.restart_retry_number (length filtered) r
        (env.restarts batches) in
    (batches, close_pass n_actions r' (env.complete_action r'.completed_actions))

-- `chSize`
abbrev pub ch_size : Limits → ℤ
ch_size limits =
    if ltb 0 limits.tenants_inflight
    then mul64 limits.nodes_inflight (pos limits.tenants_inflight)
    else limits.nodes_inflight

-- `make` of a channel panics on a negative size and on one that is too large for the runtime.
abbrev pub is_made : ℕ → ℤ → Bool
is_made largest (pos n) = leb n largest
is_made largest (negsuc n) = false

abbrev pub channel_made : Limits → Bool
channel_made limits = is_made limits.largest_channel (ch_size limits)

-- The pass on the performed groups.
unfoldable pub process_performed :
    Limits
    → Environment
    → State
    → List ActionGroupStates
    → List ActionGroupStates
    → Outcome PassResult
process_performed limits env r actions [] = ok ([], (r, false))
process_performed limits env r actions (gs ∷ performed) =
    if not (channel_made limits) then panic else (do
      (r', filtered) ← split_finished (record r { completed_actions = [] }) (gs ∷ performed)
      batches ← dispatch_actions limits r' filtered
      ok (run_batches limits env (length actions) r' filtered batches))

unfoldable pub process_action_group_states :
    Limits → Environment → State → List ActionGroupStates → Outcome PassResult
unfolding process_performed
process_action_group_states limits env r actions =
    process_performed limits env r actions (get_performed_actions actions)
