-- ===== src/Cms/ClientTests.antt =====
-- A user with two tasks.
use ydbops.Base.{ℕ, ◌≡◌, refl, String, none, some, List, [], ◌∷◌, map}
use ydbops.Retries.{Reply, answered, success, wrap_with_retries, retry_from, judge}
use ydbops.Cms.{unpacked, malformed, execute_maintenance_operation}
use ydbops.Cms.Client.{
  MaintenanceTask, done, Service, result_or, get_maintenance_task, query_each_task_for_actions,
  maintenance_tasks,
}
use ydbops.Cms.Tasks.{maintenance_tasks_lem}

-- What the service packs is the identifiers of its tasks.
abbrev answer : List String → ℕ → Reply (List String) String
answer packed attempt = answered (some (record { status = success; result = packed }))

abbrev two_task_service : Service (List String) String ℕ
two_task_service = record {
  grpc = record { code_of = λ err. none; status_error = λ code message. message };
  list_databases = answer [];
  list_cluster_nodes = answer [];
  list_maintenance_tasks = λ user. answer ("rolling-restart-1" ∷ "maintenance-2" ∷ []);
  get_task = λ task_id. answer (task_id ∷ []);
  create_task = λ request. answer [];
  refresh_task = λ task_id. answer (task_id ∷ []);
  drop_task = λ task_id. answer [];
  complete = λ uids. answer [];
  unpack_paths = λ packed. unpacked packed;
  unpack_nodes = λ packed. unpacked [];
  unpack_task_uids = λ packed. unpacked packed;
  unpack_groups = λ packed. unpacked [];
  unpack_task = λ packed. malformed "no task";
  unpack_managed = λ packed. unpacked 0;
  sort_texts = λ texts. texts;
  sort_nodes = λ before found_nodes. found_nodes;
}

abbrev plain_task : String → MaintenanceTask
plain_task task_id = record { task_uid = task_id; retry_after = none; action_group_states = [] }

two_tasks :
    maintenance_tasks two_task_service "user"
    ≡ done (plain_task "rolling-restart-1" ∷ plain_task "maintenance-2" ∷ [])
unfolding maintenance_tasks query_each_task_for_actions get_maintenance_task
    execute_maintenance_operation wrap_with_retries retry_from judge
two_tasks = refl

maintenance_tasks_lem_example :
    (task_ids : List String) × (result_or [] (
        execute_maintenance_operation two_task_service.grpc
          (some two_task_service.unpack_task_uids)
          (two_task_service.list_maintenance_tasks "user"))
      ≡ done task_ids)
    × (map (get_maintenance_task two_task_service) task_ids
        ≡ map (λ t. done t) (plain_task "rolling-restart-1" ∷ plain_task "maintenance-2" ∷ []))
    × ("rolling-restart-1" ∷ "maintenance-2" ∷ [] ≡ task_ids)
maintenance_tasks_lem_example = maintenance_tasks_lem two_task_service "user" _ two_tasks
