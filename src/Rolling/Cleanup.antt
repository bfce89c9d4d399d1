-- ===== src/Rolling/Cleanup.antt =====
-- `DoRestart` of rolling.go: what was asked of CMS when the loop starts.
use ydbops.Base.{
  ◌≡◌, ◌≢◌, refl, arith, All, String, Bool, true, false, some, List, [], ◌∷◌, ◌++◌, map, ◌==◌,
  length, ◌-◌, num_comparable,
}
use ydbops.Collections.{filter_by, map_contains}
use ydbops.Cluster.{Node}
use ydbops.Hosts.{get_node_ids, get_node_fqdns}
use ydbops.Restarters.{Restarter}
use ydbops.Rolling.State.{State}
use ydbops.Rolling.Start.{
  done, stopped, Replies, prepare_state, drop_task, create_task, task_not_dropped, drop_tasks,
  cleanup_rolling_restart, Selection, nodes_to_restart, both_failed, start_restart,
}

some_left : (nodes : List Node) → nodes ≢ [] → (length nodes - 0 == 0) ≡ false
some_left [] nonempty = absurd (nonempty refl)
some_left (node ∷ nodes) nonempty = ground arith

drop_tasks-All :
    (drops : String → Bool) (tasks : List String)
    → All (λ task. drops task ≡ true) tasks
    → drop_tasks drops tasks ≡ (map drop_task tasks, done tt)
unfolding drop_tasks
drop_tasks-All drops [] h = refl
drop_tasks-All drops (task ∷ tasks) (dropped, h) = rw (dropped, drop_tasks-All drops tasks h) refl

drop_tasks-fails :
    (drops : String → Bool) (dropped : List String) (task : String) (later : List String)
    → All (λ task. drops task ≡ true) dropped
    → drops task ≡ false
    → drop_tasks drops (dropped ++ task ∷ later)
      ≡ (map drop_task (dropped ++ task ∷ []), stopped (task_not_dropped task))
unfolding drop_tasks
drop_tasks-fails drops [] task later h kept = rw kept refl
drop_tasks-fails drops (first ∷ dropped) task later (e, h) kept =
    rw (e, drop_tasks-fails drops dropped task later h kept) refl

module _ (url_parses : String → Bool) (opts : Selection) (replies : Replies) (restarter : Restarter)
    (r : State) (prepared : prepare_state opts.tenant_list replies ≡ done r) where
  -- Where an earlier task of the user cannot be dropped, the tasks before it and it were asked to be
  -- dropped, in the order of the list; the restart stops with its error, and no task is created.
  pub start_restart-not_dropped :
      (dropped : List String) (task : String) (later : List String)
      → replies.maintenance_tasks r.user_sid ≡ some (dropped ++ task ∷ later)
      → All (λ t. replies.drop_maintenance_task t ≡ true) dropped
      → replies.drop_maintenance_task task ≡ false
      → start_restart url_parses opts replies restarter
        ≡ (map drop_task (dropped ++ task ∷ []), stopped (task_not_dropped task))
  unfolding start_restart cleanup_rolling_restart
  start_restart-not_dropped dropped task later listed h kept =
      rw
        (prepared, listed, drop_tasks-fails replies.drop_maintenance_task dropped task later h kept)
        refl

  -- Where every earlier task of the user can be dropped and the hosts parse in one way or the other,
  -- all of them are dropped first. Then one task is created for the nodes that the filter selects, if
  -- there are any and none of them is down; with the number of these nodes the loop starts.
  pub start_restart-creates :
      (tasks : List String)
      → replies.maintenance_tasks r.user_sid ≡ some tasks
      → All (λ t. replies.drop_maintenance_task t ≡ true) tasks
      → both_failed (get_node_ids opts.hosts) (get_node_fqdns url_parses opts.hosts) ≡ false
      → replies.create_maintenance_task ≡ true
      → let nodes = nodes_to_restart url_parses opts replies restarter r in
        nodes ≢ []
        → filter_by nodes (λ n. map_contains r.inactive_nodes n.node_id) ≡ []
        → start_restart url_parses opts replies restarter ≡ (
          map drop_task tasks ++ create_task r.restart_task_uid nodes ∷ [],
          done (some (record r { total_filtered_nodes = length nodes })),
        )
  unfolding start_restart cleanup_rolling_restart
  start_restart-creates tasks listed h parsed created nonempty none_down =
      rw
        (
          prepared,
          listed,
          drop_tasks-All replies.drop_maintenance_task tasks h,
          parsed,
          none_down,
          some_left (nodes_to_restart url_parses opts replies restarter r) nonempty,
          created,
        )
        refl
