-- ===== src/Rolling/Repeat.antt =====
-- Passes of `processActionGroupStates` of rolling.go after one whose report CMS did not take.
use ydbops.Base.{
  ◌≡◌, refl, ◌≢◌, ◌∙◌, ap, inl, inr, true, false, not, none, List, [], ◌∷◌, map, Bool-cases, length,
  All, All-at, All-Memᴰ, Memᴰ, arith, Memᴰ-map, num_comparable, text_comparable, Memᴰ-append_left,
  Memᴰ-append_right,
}
use ydbops.Collections.{contains}
use ydbops.Collections.Membership.{Memᴰ-contains, contains-Memᴰ, Memᴰ-filter_by}
use ydbops.Cluster.{ActionUid, ActionGroupStates}
use ydbops.Rolling.State.{Limits, State, RestartStatus, received, handle_restart_status}
use ydbops.Rolling.Actions.{
  ok, uid_of, id_of, has_action_in_unreported, get_performed_actions, Environment, channel_made,
  close_pass, process_action_group_states,
}
use ydbops.Rolling.Split.{IsKnown, to_restart}
use ydbops.Collections.Groups.{sum_of}
use ydbops.Rolling.Dispatch.{batch_total, HoldsEach}
use ydbops.Rolling.Retries.{after}
use ydbops.Rolling.Pass.{
  reported_again, process_action_group_states_lem, uids, Succeeded, unreported-after, nodes-after,
}
use ydbops.Rolling.Finish.{filter_by-All, filter_by_none, restarted, received_pass}

-- What the state knows of a node does not change in a pass.
IsKnown-nodes :
    (r r' : State) (actions : List ActionGroupStates)
    → r'.nodes ≡ r.nodes
    → All (IsKnown r) actions
    → All (IsKnown r') actions
IsKnown-nodes r r' [] e h = tt
IsKnown-nodes r r' (gs ∷ actions) e ((scope, locked, (node, known)), h) =
    ((scope, locked, (node, rw e known)), IsKnown-nodes r r' actions e h)

-- The ids of the finished actions are remembered.
remembered :
    (limits : Limits) (r : State) (performed : List ActionGroupStates)
    (statuses : List RestartStatus)
    → Succeeded statuses
    → All (λ gs. Memᴰ (uid_of gs) (uids statuses)) (to_restart r performed)
    → All
        (λ gs.
          has_action_in_unreported
            (after limits.restart_retry_number (reported_again r performed) statuses)
            (id_of gs)
          ≡ true)
        performed
unfolding has_action_in_unreported
remembered limits r performed statuses good h =
    let ids = map (λ u. u.action_id) (uids statuses) in
    All-Memᴰ
      (λ gs.
        has_action_in_unreported
          (after limits.restart_retry_number (reported_again r performed) statuses) (id_of gs)
        ≡ true)
      performed
      (λ gs m.
        rw (unreported-after limits.restart_retry_number (reported_again r performed) statuses good)
          (Memᴰ-contains
            (elim (Bool-cases (contains r.unreported_but_finished_action_ids (id_of gs))) [
              | inl old ↦
                  Memᴰ-append_left ids (contains-Memᴰ r.unreported_but_finished_action_ids old)
              | inr new ↦ Memᴰ-append_right r.unreported_but_finished_action_ids (
                  Memᴰ-map (λ u. u.action_id)
                    (All-at (λ gs'. Memᴰ (uid_of gs') (uids statuses)) (to_restart r performed) h
                      (Memᴰ-filter_by (λ gs'. not (has_action_in_unreported r (id_of gs'))) m
                        (rw new refl))))
            ])))

empty_batch : (batch : List ActionGroupStates) → sum_of (λ gs. 1) batch ≡ 0 → batch ≡ []
empty_batch [] zero_total = refl
empty_batch (gs ∷ batch) zero_total = absurd (omega (arith, zero_total))

-- Batches that hold nothing.
abbrev pub AreEmpty : List (List ActionGroupStates) → Type 0
AreEmpty batches = All (λ batch. batch ≡ []) batches

hold_none :
    (batches : List (List ActionGroupStates)) → batch_total (λ gs. 1) batches ≡ 0 → AreEmpty batches
hold_none [] zero_total = tt
hold_none (batch ∷ batches) zero_total =
    (empty_batch batch (omega (arith, zero_total)), hold_none batches (omega (arith, zero_total)))

-- A pass over actions that are all remembered.
only_reports :
    (limits : Limits) (env : Environment) (r : State) (actions : List ActionGroupStates)
    → channel_made limits ≡ true
    → get_performed_actions actions ≢ []
    → All (IsKnown r) (get_performed_actions actions)
    → All (λ gs. has_action_in_unreported r (id_of gs) ≡ true) (get_performed_actions actions)
    → let performed = get_performed_actions actions in
      (batches : List (List ActionGroupStates)) × AreEmpty batches
      × (process_action_group_states limits env r actions
          ≡ ok (
            batches,
            close_pass
                (length actions)
                (record r { completed_actions = map uid_of performed })
                (env.complete_action (map uid_of performed)),
          ))
unfolding handle_restart_status
only_reports limits env r actions room nonempty known old =
    let performed = get_performed_actions actions in
    let (batches, e, n, _) =
      process_action_group_states_lem limits env r actions room nonempty known in
    let none_left =
      filter_by_none (λ gs. not (has_action_in_unreported r (id_of gs))) performed
        (All-Memᴰ (λ gs. not (has_action_in_unreported r (id_of gs)) ≡ false) performed
          (λ gs m.
            rw (All-at (λ gs'. has_action_in_unreported r (id_of gs') ≡ true) performed old m)
              refl)) in
    (
      batches,
      hold_none batches (n (λ gs. 1) ∙ ap (sum_of (λ gs. 1)) none_left),
      e
          ∙ rw
              (none_left, filter_by-All (λ gs. has_action_in_unreported r (id_of gs)) performed old)
              refl,
    )

-- After a pass whose restarts all succeed, each restarted action among the statuses, but whose report
-- CMS does not take, the next pass over the same actions hands no group to a restart handler: it
-- reports all the performed actions, in their order. The first pass has handed on each group that was
-- to be restarted.
pub failed_report_repeated :
    (limits : Limits) (env next : Environment) (r : State) (actions : List ActionGroupStates)
    (statuses : List RestartStatus)
    → channel_made limits ≡ true
    → get_performed_actions actions ≢ []
    → All (IsKnown r) (get_performed_actions actions)
    → Succeeded statuses
    → length statuses ≡ length (to_restart r (get_performed_actions actions))
    → All (λ gs. Memᴰ (uid_of gs) (uids statuses)) (to_restart r (get_performed_actions actions))
    → ((batches : List (List ActionGroupStates)) → env.restarts batches ≡ map received statuses)
    → ((reported : List ActionUid) → env.complete_action reported ≡ none)
    → let performed = get_performed_actions actions in
      (r' : State) × (first second : List (List ActionGroupStates)) × (process_action_group_states
          limits env r actions
        ≡ ok (first, (r', false)))
      × HoldsEach first (to_restart r performed)
      × AreEmpty second
      × (process_action_group_states limits next r' actions
          ≡ ok (
            second,
            close_pass
                (length actions)
                (record r' { completed_actions = map uid_of performed })
                (next.complete_action (map uid_of performed)),
          ))
failed_report_repeated limits env next r actions statuses room nonempty known good count named
      restarts fails =
    let performed = get_performed_actions actions in
    let r' = restarted limits env r actions statuses in
    let (first, each, e) =
      received_pass limits env r actions statuses room nonempty known good count restarts in
    let (second, empty, e') =
      only_reports limits next r' actions room nonempty
        (IsKnown-nodes r r' performed
          (nodes-after limits.restart_retry_number (reported_again r performed) statuses) known)
        (remembered limits r performed statuses good named) in
    (
      r',
      first,
      second,
      e ∙ ap (λ answer. ok (first, close_pass (length actions) r' answer)) (fails _),
      each,
      empty,
      e',
    )
