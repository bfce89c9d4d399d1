-- ===== src/Rolling/Pass.antt =====
-- One pass of `processActionGroupStates` of rolling.go: no panic, nothing restarted twice, and the
-- end of the restart.
use mathlib.Core.List.{append_assoc, append-nil}
use ydbops.Base.{
  ℕ, ◌≡◌, refl, sym, ◌≢◌, ◌∙◌, inl, inr, true, false, List, [], ◌∷◌, ◌++◌, map, arith, Bool-cases,
  length, All, num_comparable,
}
use ydbops.Collections.{filter_by}
use ydbops.Cluster.{ActionUid, ActionGroupStates}
use ydbops.Rolling.State.{Limits, State, RestartStatus, handle_status}
use ydbops.Rolling.Actions.{
  ok, ◌>>=◌, uid_of, id_of, has_action_in_unreported, get_performed_actions, dispatch_actions,
  Environment, channel_made, run_batches, process_performed, process_action_group_states,
}
use ydbops.Rolling.Split.{IsKnown, finished_before, to_restart, split_finished_lem}
use ydbops.Rolling.Dispatch.{HoldsEach, dispatch_actions_lem}
use ydbops.Rolling.Retries.{after}

-- Not remembered as finished by an earlier pass.
abbrev pub IsFresh : State → ActionGroupStates → Type 0
IsFresh r gs = has_action_in_unreported r (id_of gs) ≡ false

to_restart-IsFresh :
    (r : State) (performed : List ActionGroupStates) → All (IsFresh r) (to_restart r performed)
unfolding filter_by
to_restart-IsFresh r [] = tt
to_restart-IsFresh r (gs ∷ performed) = elim (Bool-cases (has_action_in_unreported r (id_of gs))) [
  | inl old ↦ rw old (to_restart-IsFresh r performed)
  | inr new ↦ rw new (new, to_restart-IsFresh r performed)
]

All-to_restart :
    (r : State) (performed : List ActionGroupStates)
    → All (IsKnown r) performed
    → All (IsKnown r) (to_restart r performed)
unfolding filter_by
All-to_restart r [] h = tt
All-to_restart r (gs ∷ performed) (known, h) =
    elim (Bool-cases (has_action_in_unreported r (id_of gs))) [
      | inl old ↦ rw old (All-to_restart r performed h)
      | inr new ↦ rw new (known, All-to_restart r performed h)
    ]

-- What a pass has reported again before it restarts anything.
abbrev pub reported_again : State → List ActionGroupStates → State
reported_again r performed = record r {
  completed_actions = map uid_of (finished_before r performed);
}

process_performed-known :
    (limits : Limits) (env : Environment) (r : State) (actions : List ActionGroupStates)
    (gs : ActionGroupStates) (performed : List ActionGroupStates)
    → channel_made limits ≡ true
    → All (IsKnown r) (gs ∷ performed)
    → process_performed limits env r actions (gs ∷ performed) ≡ (
        dispatch_actions limits (reported_again r (gs ∷ performed)) (to_restart r (gs ∷ performed))
        >>= λ batches. ok (
            run_batches limits env
              (length actions)
              (reported_again r (gs ∷ performed))
              (to_restart r (gs ∷ performed))
              batches))
unfolding process_performed has_action_in_unreported
process_performed-known limits env r actions gs performed room known =
    rw (room, split_finished_lem (record r { completed_actions = [] }) (gs ∷ performed) known) refl

process_performed_lem :
    (limits : Limits) (env : Environment) (r : State) (actions performed : List ActionGroupStates)
    → channel_made limits ≡ true
    → performed ≢ []
    → All (IsKnown r) performed
    → (batches : List (List ActionGroupStates)) × (process_performed limits env r actions performed
        ≡ ok (
            run_batches limits env
              (length actions)
              (reported_again r performed)
              (to_restart r performed)
              batches))
      × HoldsEach batches (to_restart r performed)
      × All (All (IsFresh r)) batches
process_performed_lem limits env r actions [] room nonempty known = absurd (nonempty refl)
process_performed_lem limits env r actions (gs ∷ performed) room nonempty known =
    let (batches, e, n, fresh) =
      dispatch_actions_lem (reported_again r (gs ∷ performed)) (IsFresh r) limits
        (to_restart r (gs ∷ performed)) (All-to_restart r (gs ∷ performed) known)
        (to_restart-IsFresh r (gs ∷ performed)) in
    (
      batches,
      process_performed-known limits env r actions gs performed room known ∙ rw e refl,
      n,
      fresh,
    )

-- Where some action is performed, the performed ones lock nodes that the state knows, and the channel
-- of statuses has a size that Go makes, a pass does not panic. It hands to the restart handlers exactly
-- the performed groups that no earlier pass has finished, each as often as it stands among them (any
-- weight of the groups has the same sum over both); the finished ones it reports again.
pub process_action_group_states_lem :
    (limits : Limits) (env : Environment) (r : State) (actions : List ActionGroupStates)
    → channel_made limits ≡ true
    → get_performed_actions actions ≢ []
    → All (IsKnown r) (get_performed_actions actions)
    → let performed = get_performed_actions actions in
      (batches : List (List ActionGroupStates)) × (process_action_group_states limits env r actions
        ≡ ok (
            run_batches limits env
              (length actions)
              (reported_again r performed)
              (to_restart r performed)
              batches))
      × HoldsEach batches (to_restart r performed)
      × All (All (IsFresh r)) batches
unfolding process_action_group_states
process_action_group_states_lem limits env r actions room nonempty known =
    process_performed_lem limits env r actions (get_performed_actions actions) room nonempty known

-- The actions of the statuses.
abbrev pub uids : List RestartStatus → List ActionUid
uids statuses = map (λ st. st.action_state.action_uid) statuses

abbrev pub Succeeded : List RestartStatus → Type 0
Succeeded statuses = All (λ st. st.failed ≡ false) statuses

-- Successful restarts finish their actions, in the order in which the statuses come.
pub completed-after :
    (number : ℕ) (r : State) (statuses : List RestartStatus)
    → Succeeded statuses
    → (after number r statuses).completed_actions ≡ r.completed_actions ++ uids statuses
unfolding handle_status
completed-after number r [] h = sym (append-nil r.completed_actions)
completed-after number r (st ∷ statuses) (good, h) =
    completed-after number (handle_status number r st) statuses h
    ∙ rw good (append_assoc r.completed_actions (st.action_state.action_uid ∷ []) (uids statuses))

pub unreported-after :
    (number : ℕ) (r : State) (statuses : List RestartStatus)
    → Succeeded statuses
    → (after number r statuses).unreported_but_finished_action_ids
      ≡ r.unreported_but_finished_action_ids ++ map (λ u. u.action_id) (uids statuses)
unfolding handle_status
unreported-after number r [] h = sym (append-nil r.unreported_but_finished_action_ids)
unreported-after number r (st ∷ statuses) (good, h) =
    unreported-after number (handle_status number r st) statuses h
    ∙ rw good (
        append_assoc r.unreported_but_finished_action_ids
          (st.action_state.action_uid.action_id ∷ []) (map (λ u. u.action_id) (uids statuses)))

pub nodes-after :
    (number : ℕ) (r : State) (statuses : List RestartStatus)
    → (after number r statuses).nodes ≡ r.nodes
unfolding handle_status
nodes-after number r [] = refl
nodes-after number r (st ∷ statuses) =
    nodes-after number (handle_status number r st) statuses ∙ ground arith
