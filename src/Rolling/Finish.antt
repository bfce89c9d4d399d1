-- ===== src/Rolling/Finish.antt =====
-- How passes of `processActionGroupStates` of rolling.go end: the restart is complete, or what was
-- restarted but not reported is reported by the next pass.
use mathlib.Core.Path.{subst}
use ydbops.Base.{
  ℕ, ◌≡◌, refl, sym, ◌≢◌, ◌∙◌, ap, Bool, true, false, not, some, List, [], ◌∷◌, ◌++◌, map, length,
  All, All-Memᴰ, length-map, num_comparable, text_comparable, ==_refl,
}
use ydbops.Collections.{contains, filter_by}
use ydbops.Cluster.{ActionUid, ActionGroupStates, is_performed}
use ydbops.Rolling.State.{Limits, State, RestartStatus, received}
use ydbops.Rolling.Actions.{
  ok, uid_of, id_of, has_action_in_unreported, get_performed_actions, Environment, channel_made,
  close_pass, run_batches, process_action_group_states,
}
use ydbops.Rolling.Split.{IsKnown, finished_before, to_restart}
use ydbops.Rolling.Dispatch.{HoldsEach}
use ydbops.Rolling.Retries.{after, handle_restart_status_all}
use ydbops.Rolling.Pass.{
  reported_again, process_action_group_states_lem, uids, Succeeded, completed-after,
}

module _ {ℓ} {A : Type ℓ} (f : A → Bool) where
  pub filter_by-All : (items : List A) → All (λ a. f a ≡ true) items → filter_by items f ≡ items
  unfolding filter_by
  filter_by-All [] h = refl
  filter_by-All (a ∷ items) (e, h) = rw e (ap (λ rest. a ∷ rest) (filter_by-All items h))

  pub filter_by_none : (items : List A) → All (λ a. f a ≡ false) items → filter_by items f ≡ []
  unfolding filter_by
  filter_by_none [] h = refl
  filter_by_none (a ∷ items) (e, h) = rw e (filter_by_none items h)

-- With nothing remembered, every performed group is restarted.
all_to_restart :
    (r : State) (performed : List ActionGroupStates)
    → r.unreported_but_finished_action_ids ≡ []
    → to_restart r performed ≡ performed
unfolding has_action_in_unreported contains
all_to_restart r performed e =
    filter_by-All (λ gs. not (has_action_in_unreported r (id_of gs))) performed
      (All-Memᴰ (λ gs. not (has_action_in_unreported r (id_of gs)) ≡ true) performed
        (λ gs m. rw e refl))

none_before :
    (r : State) (performed : List ActionGroupStates)
    → r.unreported_but_finished_action_ids ≡ []
    → finished_before r performed ≡ []
unfolding has_action_in_unreported contains
none_before r performed e =
    filter_by_none (λ gs. has_action_in_unreported r (id_of gs)) performed
      (All-Memᴰ (λ gs. has_action_in_unreported r (id_of gs) ≡ false) performed (λ gs m. rw e refl))

-- The pass in which as many statuses are received as groups are restarted, all of them good.
module _ (limits : Limits) (r : State) (filtered : List ActionGroupStates)
    (statuses : List RestartStatus) (good : Succeeded statuses)
    (count : length statuses ≡ length filtered) where
  run_batches-received :
      (env : Environment) (n_actions : ℕ) (batches : List (List ActionGroupStates))
      → env.restarts batches ≡ map received statuses
      → run_batches limits env n_actions r filtered batches ≡ (
        batches,
        close_pass n_actions
            (after limits.restart_retry_number r statuses)
            (env.complete_action (r.completed_actions ++ uids statuses)),
      )
  run_batches-received env n_actions batches e =
      rw
        (
          e,
          ← count,
          handle_restart_status_all limits.restart_retry_number r statuses,
          completed-after limits.restart_retry_number r statuses good,
        )
        refl

module _ (limits : Limits) (env : Environment) (r : State) (actions : List ActionGroupStates)
    (statuses : List RestartStatus) where
  -- The state when the restarts of the pass are done.
  abbrev pub restarted : State
  restarted =
      after limits.restart_retry_number (reported_again r (get_performed_actions actions)) statuses

  pub received_pass :
      channel_made limits ≡ true
      → get_performed_actions actions ≢ []
      → All (IsKnown r) (get_performed_actions actions)
      → Succeeded statuses
      → length statuses ≡ length (to_restart r (get_performed_actions actions))
      → ((batches : List (List ActionGroupStates)) → env.restarts batches ≡ map received statuses)
      → (batches : List (List ActionGroupStates)) × HoldsEach batches
          (to_restart r (get_performed_actions actions))
        × (process_action_group_states limits env r actions
            ≡ ok (
              batches,
              close_pass (length actions) restarted (
                  env.complete_action (
                    map uid_of (finished_before r (get_performed_actions actions))
                    ++ uids statuses)),
            ))
  received_pass room nonempty known good count restarts =
      let performed = get_performed_actions actions in
      let (batches, e, n, _) =
        process_action_group_states_lem limits env r actions room nonempty known in
      (
        batches,
        n,
        e
            ∙ ap ok (
                run_batches-received limits (reported_again r performed) (to_restart r performed)
                  statuses good count env (length actions) batches (restarts batches)),
      )

close_pass_all :
    (n_actions : ℕ) (r : State) (reported : List ActionUid)
    → length reported ≡ n_actions
    → close_pass n_actions r (some (length reported))
      ≡ (record r { unreported_but_finished_action_ids = [] }, true)
close_pass_all n_actions r reported e = rw (e, ==_refl n_actions) refl

-- Where CMS has moved every action to PERFORMED, none is remembered, every restart succeeds and CMS
-- answers with a status for each action that is reported, one pass completes the restart: it hands
-- every group to the restart handlers, reports the actions of all the statuses, and has nothing left to
-- report.
pub process_action_group_states_completes :
    (limits : Limits) (env : Environment) (r : State) (actions : List ActionGroupStates)
    (statuses : List RestartStatus)
    → channel_made limits ≡ true
    → actions ≢ []
    → All (λ gs. is_performed gs.first_state.status ≡ true) actions
    → All (IsKnown r) actions
    → r.unreported_but_finished_action_ids ≡ []
    → Succeeded statuses
    → length statuses ≡ length actions
    → ((batches : List (List ActionGroupStates)) → env.restarts batches ≡ map received statuses)
    → ((reported : List ActionUid) → env.complete_action reported ≡ some (length reported))
    → (r' : State) × (batches : List (List ActionGroupStates)) × (process_action_group_states limits
          env r actions
        ≡ ok (batches, (r', true)))
      × HoldsEach batches actions
      × (r'.completed_actions ≡ uids statuses)
      × (r'.unreported_but_finished_action_ids ≡ [])
unfolding get_performed_actions
process_action_group_states_completes limits env r actions statuses room nonempty done known fresh
      good count restarts acks =
    let performed = filter_by-All (λ gs. is_performed gs.first_state.status) actions done in
    let (batches, each, e) =
      received_pass limits env r actions statuses room (λ empty. nonempty (sym performed ∙ empty))
        (rw performed known) good (rw (performed, all_to_restart r actions fresh) count) restarts in
    (
      record (restarted limits env r actions statuses) { unreported_but_finished_action_ids = [] },
      batches,
      e
          ∙ ap (λ end. ok (batches, end))
              (ap (close_pass (length actions) (restarted limits env r actions statuses)) (acks _)
                ∙ close_pass_all (length actions) (restarted limits env r actions statuses)
                    (map uid_of (finished_before r (get_performed_actions actions))
                      ++ uids statuses)
                    (rw (none_before r (get_performed_actions actions) fresh)
                      (length-map (λ st. st.action_state.action_uid) statuses ∙ count))),
      subst (HoldsEach batches) (ap (to_restart r) performed ∙ all_to_restart r actions fresh) each,
      completed-after limits.restart_retry_number (reported_again r (get_performed_actions actions))
            statuses good
          ∙ rw (none_before r (get_performed_actions actions) fresh) refl,
      refl,
    )
