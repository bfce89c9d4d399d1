-- ===== src/Cms/Client.antt =====
-- pkg/client/cms: the operations of the client, each over one call of a service with its retries. The
-- services, by the number of the attempt, and the unpacking of their results are a parameter, and so is
-- `sort.Slice`.
use ydbops.Base.{ℕ, ltb, String, Bool, Option, none, some, List, [], ◌∷◌}
use ydbops.Base.Int.{ℤ}
use ydbops.Cluster.{Instant, Node, ActionUid, ActionGroupStates}
use ydbops.Retries.{GrpcStatus, Reply, StatusCode}
use ydbops.Cms.{
  Executed, executed, not_called, retries_exceeded, bad_result, unsuccessful, crashed, Unpacked,
  execute_maintenance_operation, LockAction, action_groups_from_nodes, action_groups_from_hosts,
  CompleteError, Found, found, missing, actions_to_complete,
}

pub record MaintenanceTask : Type 0 where
  pub task_uid : String
  pub retry_after : Option Instant
  pub action_group_states : List ActionGroupStates

pub data ScopeType : Type 0 where
  node_scope host_scope : ScopeType

-- `MaintenanceTaskParams`; the mode is its number in the enumeration.
pub record TaskParams : Type 0 where
  pub task_uid : String
  pub availability_mode : ℕ
  pub priority : ℤ
  pub duration : ℤ
  pub scope_type : ScopeType
  pub nodes : List Node
  pub hosts : List String

pub record CreateRequest : Type 0 where
  pub task_uid : String
  pub availability_mode : ℕ
  pub priority : ℤ
  pub action_groups : List LockAction

pub data ClientError {ℓ} (Error : Type ℓ) : Type ℓ where
  call_failed : Error → ClientError Error
  retries_exhausted : ℕ → Option Error → ClientError Error
  bad_status : StatusCode → ClientError Error
  task_failed : String → ClientError Error → ClientError Error
  not_completed : CompleteError → ClientError Error

pub data Ended {ℓ κ} (Error : Type ℓ) (A : Type κ) : Type (ℓ ⊔ κ) where
  done : A → Ended Error A
  error : ClientError Error → Ended Error A
  panicked : Ended Error A

infixl 5 ◌>>=◌
abbrev pub ◌>>=◌ {ℓ κ ι} :
    {Error : Type ℓ} {A : Type κ} {B : Type ι} → Ended Error A → (A → Ended Error B) → Ended Error B
done a >>= f = f a
error err >>= f = error err
panicked >>= f = panicked

-- The calls of the two services, and what `UnmarshalTo` makes of their results.
pub record Service {ℓ κ ι} (Packed : Type ℓ) (Error : Type κ) (Managed : Type ι)
    : Type (ℓ ⊔ κ ⊔ ι) where
  pub grpc : GrpcStatus Error
  pub list_databases : ℕ → Reply Packed Error
  pub list_cluster_nodes : ℕ → Reply Packed Error
  pub list_maintenance_tasks : String → ℕ → Reply Packed Error
  pub get_task : String → ℕ → Reply Packed Error
  pub create_task : CreateRequest → ℕ → Reply Packed Error
  pub refresh_task : String → ℕ → Reply Packed Error
  pub drop_task : String → ℕ → Reply Packed Error
  pub complete : List ActionUid → ℕ → Reply Packed Error
  pub unpack_paths : Packed → Unpacked Error (List String)
  pub unpack_nodes : Packed → Unpacked Error (List Node)
  pub unpack_task_uids : Packed → Unpacked Error (List String)
  pub unpack_groups : Packed → Unpacked Error (List ActionGroupStates)
  pub unpack_task : Packed → Unpacked Error MaintenanceTask
  pub unpack_managed : Packed → Unpacked Error Managed
  pub sort_texts : List String → List String
  pub sort_nodes : (Node → Node → Bool) → List Node → List Node

-- The result that was unpacked, or what it was before the call.
abbrev pub result_or {ℓ κ ι} :
    {Packed : Type ℓ} {Error : Type κ} {Out : Type ι}
    → Out
    → Executed Packed Error Out
    → Ended Error Out
result_or zero_result (executed op none) = done zero_result
result_or zero_result (executed op (some out)) = done out
result_or zero_result (not_called err) = error (call_failed err)
result_or zero_result (bad_result err) = error (call_failed err)
result_or zero_result (retries_exceeded n err) = error (retries_exhausted n err)
result_or zero_result (unsuccessful code) = error (bad_status code)
result_or zero_result crashed = panicked

abbrev pub status_of {ℓ κ} :
    {Packed : Type ℓ} {Error : Type κ} → Executed Packed Error String → Ended Error StatusCode
status_of (executed op out) = done op.status
status_of (not_called err) = error (call_failed err)
status_of (bad_result err) = error (call_failed err)
status_of (retries_exceeded n err) = error (retries_exhausted n err)
status_of (unsuccessful code) = error (bad_status code)
status_of crashed = panicked

abbrev action_groups_of : TaskParams → ScopeType → List LockAction
action_groups_of params node_scope = action_groups_from_nodes params.duration params.nodes
action_groups_of params host_scope = action_groups_from_hosts params.duration params.hosts

abbrev pub create_request : TaskParams → CreateRequest
create_request params = record {
  task_uid = params.task_uid;
  availability_mode = params.availability_mode;
  priority = params.priority;
  action_groups = action_groups_of params params.scope_type;
}

abbrev no_task : MaintenanceTask
no_task = record { task_uid = ""; retry_after = none; action_group_states = [] }

module _ {ℓ κ ι} {Packed : Type ℓ} {Error : Type κ} {Managed : Type ι}
    (s : Service Packed Error Managed) where
  unfoldable pub tenants : Ended Error (List String)
  tenants =
      result_or [] (execute_maintenance_operation s.grpc (some s.unpack_paths) s.list_databases)
      >>= λ paths. done (s.sort_texts paths)

  unfoldable pub nodes : Ended Error (List Node)
  nodes =
      result_or [] (execute_maintenance_operation s.grpc (some s.unpack_nodes) s.list_cluster_nodes)
      >>= λ found_nodes. done (s.sort_nodes (λ l r. ltb l.node_id r.node_id) found_nodes)

  unfoldable pub get_maintenance_task : String → Ended Error MaintenanceTask
  get_maintenance_task task_id =
      result_or []
        (execute_maintenance_operation s.grpc (some s.unpack_groups) (s.get_task task_id))
      >>= λ groups.
          done (record { task_uid = task_id; retry_after = none; action_group_states = groups })

  -- The error of a task names the task.
  abbrev pub or_task_failed : String → Ended Error MaintenanceTask → Ended Error MaintenanceTask
  or_task_failed task_id (error err) = error (task_failed task_id err)
  or_task_failed task_id ended = ended

  unfoldable pub query_each_task_for_actions : List String → Ended Error (List MaintenanceTask)
  query_each_task_for_actions [] = done []
  query_each_task_for_actions (task_id ∷ task_ids) =
      or_task_failed task_id (get_maintenance_task task_id) >>= λ task.
      query_each_task_for_actions task_ids >>= λ tasks. done (task ∷ tasks)

  unfoldable pub maintenance_tasks : String → Ended Error (List MaintenanceTask)
  maintenance_tasks user_sid =
      result_or [] (
        execute_maintenance_operation s.grpc (some s.unpack_task_uids)
          (s.list_maintenance_tasks user_sid))
      >>= query_each_task_for_actions

  unfoldable pub create_maintenance_task : TaskParams → Ended Error MaintenanceTask
  create_maintenance_task params = result_or no_task (
      execute_maintenance_operation s.grpc (some s.unpack_task)
        (s.create_task (create_request params)))

  -- `RefreshTask` is the same.
  unfoldable pub refresh_maintenance_task : String → Ended Error MaintenanceTask
  refresh_maintenance_task task_id =
      result_or no_task
        (execute_maintenance_operation s.grpc (some s.unpack_task) (s.refresh_task task_id))

  unfoldable pub drop_maintenance_task : String → Ended Error StatusCode
  drop_maintenance_task task_id =
      status_of (execute_maintenance_operation s.grpc none (s.drop_task task_id))

  unfoldable pub complete_action : Managed → List ActionUid → Ended Error Managed
  complete_action zero_result action_ids =
      result_or zero_result
        (execute_maintenance_operation s.grpc (some s.unpack_managed) (s.complete action_ids))

  abbrev pub complete_found : Managed → Found (List ActionUid) → Ended Error Managed
  complete_found zero_result (missing err) = error (not_completed err)
  complete_found zero_result (found uids) = complete_action zero_result uids

  unfoldable pub complete_actions :
      (String → Bool) → Managed → String → List String → Ended Error Managed
  complete_actions url_parses zero_result task_id hosts =
      or_task_failed task_id (get_maintenance_task task_id) >>= λ task.
      complete_found zero_result (actions_to_complete url_parses task.action_group_states hosts)
