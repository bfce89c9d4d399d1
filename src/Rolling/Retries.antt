-- ===== src/Rolling/Retries.antt =====
-- When a node's action counts as finished: `handleRestartStatus` of rolling.go over any order of
-- statuses.
use ydbops.Base.{
  ℕ, zero, suc, ◌+◌, ◌≤◌, ◌≡◌, refl, ◌∙◌, Bool, true, not, ◌&&◌, ◌||◌, List, [], ◌∷◌, ◌++◌, map,
  length, arith, if◌then◌else◌, ◌==◌, num_comparable, All,
}
use ydbops.Collections.Maps.{get-put}
use ydbops.Rolling.State.{
  State, RestartStatus, Event, received, cancelled, retries_of, handle_status,
  handle_restart_status,
}

-- The failed statuses of a node.
abbrev pub failures : ℕ → List RestartStatus → ℕ
failures node_id [] = 0
failures node_id (st ∷ statuses) =
    (if st.failed && st.node_id == node_id then 1 else 0) + failures node_id statuses

-- The statuses taken one after the other, with no cancellation between them.
abbrev pub after : ℕ → State → List RestartStatus → State
after number r [] = r
after number r (st ∷ statuses) = after number (handle_status number r st) statuses

retries-handle_status :
    (number : ℕ) (r : State) (st : RestartStatus) (node_id : ℕ)
    → retries_of (handle_status number r st) node_id
      ≡ retries_of r node_id + (if st.failed && st.node_id == node_id then 1 else 0)
unfolding handle_status
retries-handle_status number r st node_id =
    ground (arith, get-put r.retries_made_for_node st.node_id node_id (retries_of r st.node_id + 1))

-- The number of retries of each node goes up by its failures, and by nothing else.
pub retries-after :
    (number : ℕ) (r : State) (statuses : List RestartStatus) (node_id : ℕ)
    → retries_of (after number r statuses) node_id
      ≡ retries_of r node_id + failures node_id statuses
retries-after number r [] node_id = omega arith
retries-after number r (st ∷ statuses) node_id = omega (
  arith,
  retries-after number (handle_status number r st) statuses node_id,
  retries-handle_status number r st node_id,
)

-- Where as many statuses come as restarts were started, all are taken.
pub handle_restart_status_all :
    (number : ℕ) (r : State) (statuses : List RestartStatus)
    → handle_restart_status number (length statuses) r (map received statuses)
      ≡ after number r statuses
unfolding handle_restart_status
handle_restart_status_all number r [] = refl
handle_restart_status_all number r (st ∷ statuses) =
    handle_restart_status_all number (handle_status number r st) statuses

-- A cancellation ends the loop: what was taken before counts, what comes later does not.
pub handle_restart_status_cancelled :
    (number expected : ℕ) (r : State) (statuses : List RestartStatus) (events : List Event)
    → length statuses ≤ expected
    → handle_restart_status number expected r (map received statuses ++ cancelled ∷ events)
      ≡ after number r statuses
unfolding handle_restart_status
handle_restart_status_cancelled number zero r [] events h = refl
handle_restart_status_cancelled number (suc expected) r [] events h = refl
handle_restart_status_cancelled number zero r (st ∷ statuses) events h = absurd (omega arith)
handle_restart_status_cancelled number (suc expected) r (st ∷ statuses) events h =
    handle_restart_status_cancelled number expected (handle_status number r st) statuses events
      (omega arith)

after-append :
    (number : ℕ) (r : State) (xs ys : List RestartStatus)
    → after number r (xs ++ ys) ≡ after number (after number r xs) ys
after-append number r [] ys = refl
after-append number r (x ∷ xs) ys = after-append number (handle_status number r x) xs ys

-- A status finishes its action if the restart succeeded, or if it was the failure that uses up the
-- node's retries.
abbrev pub finishes : ℕ → ℕ → RestartStatus → Bool
finishes number earlier_failures st = not st.failed || earlier_failures + 1 == number

completed-handle_status :
    (number : ℕ) (r : State) (st : RestartStatus)
    → ((handle_status number r st).completed_actions ≡ (
        if finishes number (retries_of r st.node_id) st
        then r.completed_actions ++ st.action_state.action_uid ∷ []
        else r.completed_actions))
      × ((handle_status number r st).unreported_but_finished_action_ids ≡ (
          if finishes number (retries_of r st.node_id) st
          then r.unreported_but_finished_action_ids ++ st.action_state.action_uid.action_id ∷ []
          else r.unreported_but_finished_action_ids))
      × ((handle_status number r st).already_restarted_nodes ≡ (
          if finishes number (retries_of r st.node_id) st
          then r.already_restarted_nodes + 1
          else r.already_restarted_nodes))
unfolding handle_status
completed-handle_status number r st = ground arith

-- The state after all of the statuses of a pass.
abbrev pub handled : ℕ → State → List RestartStatus → State
handled number r statuses = handle_restart_status number (length statuses) r (map received statuses)

-- Whatever came before it, a status adds its action to the completed and to the unreported actions,
-- and one to the progress, exactly if the restart succeeded or if this failure makes the node's
-- failures reach the retry number, those of earlier passes included; otherwise all three stay.
pub last_status :
    (number : ℕ) (r : State) (earlier : List RestartStatus) (st : RestartStatus)
    → let before = handled number r earlier in
      let now = handled number r (earlier ++ st ∷ []) in
      let done = finishes number (retries_of r st.node_id + failures st.node_id earlier) st in
      (now.completed_actions ≡ (
        if done
        then before.completed_actions ++ st.action_state.action_uid ∷ []
        else before.completed_actions))
      × (now.unreported_but_finished_action_ids ≡ (
          if done
          then before.unreported_but_finished_action_ids
            ++ st.action_state.action_uid.action_id ∷ []
          else before.unreported_but_finished_action_ids))
      × (now.already_restarted_nodes
          ≡ (if done then before.already_restarted_nodes + 1 else before.already_restarted_nodes))
last_status number r earlier st =
    rw
      (
        handle_restart_status_all number r (earlier ++ st ∷ []),
        handle_restart_status_all number r earlier,
        after-append number r earlier (st ∷ []),
        ← retries-after number r earlier st.node_id,
      )
      (completed-handle_status number (after number r earlier) st)

-- The retries of a node count its failures, in whatever order the statuses of the nodes come.
pub retries-handled :
    (number : ℕ) (r : State) (statuses : List RestartStatus) (node_id : ℕ)
    → retries_of (handled number r statuses) node_id
      ≡ retries_of r node_id + failures node_id statuses
retries-handled number r statuses node_id =
    rw (handle_restart_status_all number r statuses) (retries-after number r statuses node_id)

after_zero :
    (r : State) (statuses : List RestartStatus)
    → All (λ st. st.failed ≡ true) statuses
    → (after 0 r statuses).completed_actions ≡ r.completed_actions
after_zero r [] h = refl
after_zero r (st ∷ statuses) (failed, h) =
    after_zero (handle_status 0 r st) statuses h
    ∙ ground (arith, (completed-handle_status 0 r st).0)

-- With the retry number 0, which the options accept, no number of failures finishes an action: the
-- failing nodes are restarted for ever.
zero_retries_never_finish :
    (r : State) (statuses : List RestartStatus)
    → All (λ st. st.failed ≡ true) statuses
    → (handled 0 r statuses).completed_actions ≡ r.completed_actions
zero_retries_never_finish r statuses h =
    rw (handle_restart_status_all 0 r statuses) (after_zero r statuses h)
