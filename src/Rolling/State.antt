-- ===== src/Rolling/State.antt =====
-- rolling.go: the state of a restart, `atomicRememberComplete` and `handleRestartStatus`; the options
-- of options.go that they read. The mutex makes each of them one step.
use ydbops.Base.{
  ℕ, zero, suc, ◌+◌, String, Bool, Option, none, some, List, [], ◌∷◌, ◌++◌, ◌==◌, if◌then◌else◌,
  num_comparable,
}
use ydbops.Base.Int.{ℤ}
use ydbops.Collections.{get, put}
use ydbops.Cluster.{Node, ActionUid, ActionState}

-- What `Validate` requires not to be negative is a natural number; `nodes_inflight` is not validated and
-- may be negative. `largest_channel` is no option: it is the size of a channel of statuses above which
-- Go's runtime panics.
pub record Limits : Type 0 where
  pub restart_retry_number : ℕ
  pub nodes_inflight : ℤ
  pub tenants_inflight : ℕ
  pub suppress_compatibility_check : Bool
  pub largest_channel : ℕ

-- The versions seen: for each major the minors, each once.
abbrev pub MajorToMinors : Type 0
MajorToMinors = List (ℕ × List ℕ)

-- `state`, with `completedActions` of `Rolling`.
pub record State : Type 0 where
  pub known_versions : MajorToMinors
  pub nodes : List (ℕ × Node)
  pub inactive_nodes : List (ℕ × Node)
  pub tenant_name_to_node_ids : List (String × List ℕ)
  pub retries_made_for_node : List (ℕ × ℕ)
  pub tenants : List String
  pub user_sid : String
  pub unreported_but_finished_action_ids : List String
  pub restart_task_uid : String
  pub already_restarted_nodes : ℕ
  pub total_filtered_nodes : ℕ
  pub completed_actions : List ActionUid

-- `restartStatus`; `failed` is `err != nil`.
pub record RestartStatus : Type 0 where
  pub node_id : ℕ
  pub action_state : ActionState
  pub failed : Bool

unfoldable pub remember_complete : State → ActionUid → State
remember_complete r action_uid = record r {
  unreported_but_finished_action_ids =
      r.unreported_but_finished_action_ids ++ action_uid.action_id ∷ [];
  completed_actions = r.completed_actions ++ action_uid ∷ [];
  already_restarted_nodes = r.already_restarted_nodes + 1;
}

-- `m[k]` of a map to numbers, 0 where the key is missing.
abbrev pub or_zero : Option ℕ → ℕ
or_zero none = 0
or_zero (some n) = n

abbrev pub retries_of : State → ℕ → ℕ
retries_of r node_id = or_zero (get r.retries_made_for_node node_id)

unfoldable pub count_retry : State → ℕ → State
count_retry r node_id = record r {
  retries_made_for_node = put r.retries_made_for_node node_id (retries_of r node_id + 1);
}

-- One status: the body of the `case st := <-statuses`.
unfoldable pub handle_status : ℕ → State → RestartStatus → State
unfolding remember_complete count_retry
handle_status restart_retry_number r st =
    if st.failed
    then (if retries_of r st.node_id + 1 == restart_retry_number
        then remember_complete (count_retry r st.node_id) st.action_state.action_uid
        else count_retry r st.node_id)
    else remember_complete r st.action_state.action_uid

-- What the `select` of `handleRestartStatus` takes, in the order in which it takes it.
pub data Event : Type 0 where
  received : RestartStatus → Event
  cancelled : Event

-- The loop over `expectedRestarts`. With no event left the loop is blocked.
unfoldable pub handle_restart_status : ℕ → ℕ → State → List Event → State
handle_restart_status restart_retry_number zero r events = r
handle_restart_status restart_retry_number (suc expected) r [] = r
handle_restart_status restart_retry_number (suc expected) r (cancelled ∷ events) = r
handle_restart_status restart_retry_number (suc expected) r (received st ∷ events) =
    handle_restart_status restart_retry_number expected (handle_status restart_retry_number r st)
      events
