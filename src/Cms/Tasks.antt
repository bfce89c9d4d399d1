-- ===== src/Cms/Tasks.antt =====
-- pkg/client/cms: the tasks of a user, in detail.
use ydbops.Base.{◌≡◌, refl, sym, ap, ◌∙◌, String, none, some, List, [], ◌∷◌, map}
use ydbops.Cms.{execute_maintenance_operation}
use ydbops.Cms.Client.{
  MaintenanceTask, Ended, done, error, panicked, ◌>>=◌, Service, result_or, get_maintenance_task,
  or_task_failed, query_each_task_for_actions, maintenance_tasks,
}

bind-done {ℓ κ ι} :
    {Error : Type ℓ} {A : Type κ} {B : Type ι} (o : Ended Error A) (f : A → Ended Error B) {b : B}
    → o >>= f ≡ done b
    → (a : A) × (o ≡ done a) × (f a ≡ done b)
bind-done (done a) f e = (a, refl, e)
bind-done (error err) f e = cc
bind-done panicked f e = cc

done-injective {ℓ κ} :
    {Error : Type ℓ} {A : Type κ} {a b : A} → (◌≡◌ {A = Ended Error A} (done a) (done b)) → a ≡ b
done-injective e = cc

module _ {ℓ κ ι} {Packed : Type ℓ} {Error : Type κ} {Managed : Type ι}
    (s : Service Packed Error Managed) where
  of_or_task_failed :
      (task_id : String) (o : Ended Error MaintenanceTask) {task : MaintenanceTask}
      → or_task_failed s task_id o ≡ done task
      → o ≡ done task
  of_or_task_failed task_id (done task) e = e
  of_or_task_failed task_id (error err) e = cc
  of_or_task_failed task_id panicked e = cc

  get_maintenance_task-task_uid :
      (task_id : String) (task : MaintenanceTask)
      → get_maintenance_task s task_id ≡ done task
      → task.task_uid ≡ task_id
  unfolding get_maintenance_task
  get_maintenance_task-task_uid task_id task e =
      let (groups, _, same) =
        bind-done
          (result_or []
            (execute_maintenance_operation s.grpc (some s.unpack_groups) (s.get_task task_id)))
          (λ found.
            done (record { task_uid = task_id; retry_after = none; action_group_states = found }))
          e in
      sym (ap (λ t. t.task_uid) (done-injective same))

  query_each_lem :
      (task_ids : List String) (tasks : List MaintenanceTask)
      → query_each_task_for_actions s task_ids ≡ done tasks
      → (map (get_maintenance_task s) task_ids ≡ map (λ t. done t) tasks)
        × (map (λ t. t.task_uid) tasks ≡ task_ids)
  unfolding query_each_task_for_actions
  query_each_lem [] tasks e =
      let same = done-injective e in
      (ap (map (λ t. done t)) same, sym (ap (map (λ t. t.task_uid)) same))
  query_each_lem (task_id ∷ task_ids) tasks e =
      let (task, got, e₁) =
        bind-done (or_task_failed s task_id (get_maintenance_task s task_id))
          (λ t. query_each_task_for_actions s task_ids >>= λ ts. done (t ∷ ts)) e in
      let (rest, others, e₂) =
        bind-done (query_each_task_for_actions s task_ids) (λ ts. done (task ∷ ts)) e₁ in
      let (details, uids) = query_each_lem task_ids rest others in
      let is_task = of_or_task_failed task_id (get_maintenance_task s task_id) got in
      let same = done-injective e₂ in
      (
        (λ i. is_task i ∷ details i) ∙ ap (map (λ t. done t)) same,
        sym (ap (map (λ t. t.task_uid)) same)
            ∙ (λ i. get_maintenance_task-task_uid task_id task is_task i ∷ uids i),
      )

  -- The tasks of a user come all or not at all: when `MaintenanceTasks` succeeds, its tasks are those
  -- that CMS lists, in that order, each with its identifier, and each as `GetMaintenanceTask` returns it
  -- with success.
  pub maintenance_tasks_lem :
      (user_sid : String) (tasks : List MaintenanceTask)
      → maintenance_tasks s user_sid ≡ done tasks
      → (task_ids : List String) × (result_or [] (
            execute_maintenance_operation s.grpc
              (some s.unpack_task_uids)
              (s.list_maintenance_tasks user_sid))
          ≡ done task_ids)
        × (map (get_maintenance_task s) task_ids ≡ map (λ t. done t) tasks)
        × (map (λ t. t.task_uid) tasks ≡ task_ids)
  unfolding maintenance_tasks
  maintenance_tasks_lem user_sid tasks e =
      let (task_ids, listed, e₁) =
        bind-done
          (result_or [] (
            execute_maintenance_operation s.grpc (some s.unpack_task_uids)
              (s.list_maintenance_tasks user_sid)))
          (query_each_task_for_actions s) e in
      let (details, uids) = query_each_lem task_ids tasks e₁ in (task_ids, listed, details, uids)
