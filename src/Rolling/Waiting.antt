-- ===== src/Rolling/Waiting.antt =====
-- `cmsWaitingLoop` of rolling.go: what ends the loop, and that it goes on until CMS moves the actions.
use ydbops.Base.{
  ◌≡◌, refl, ◌≢◌, ◌∙◌, Bool, true, false, none, some, List, [], ◌∷◌, ◌++◌, map, length, All,
}
use ydbops.Cluster.{ActionUid, ActionGroupStates, is_performed}
use ydbops.Rolling.State.{Limits, State, RestartStatus, received}
use ydbops.Rolling.Actions.{
  Environment, ok, get_performed_actions, channel_made, process_action_group_states,
  process_performed,
}
use ydbops.Rolling.Split.{IsKnown}
use ydbops.Rolling.Dispatch.{HoldsEach}
use ydbops.Rolling.Pass.{Succeeded, uids}
use ydbops.Rolling.Finish.{process_action_group_states_completes}
use ydbops.Rolling.Compat.{Fetched}
use ydbops.Rolling.Loop.{Task, Round, LoopEnd, completed, pass, after_refresh, cms_waiting_loop}

-- A task that the loop can only wait with: its refresh failed, or CMS has performed no action.
abbrev pub IsIdle : Task → Type 0
IsIdle none = Unit
IsIdle (some actions) = get_performed_actions actions ≡ []

pass-IsIdle :
    (limits : Limits) (env : Environment) (r : State) (task : Task)
    → IsIdle task
    → pass limits env r task ≡ ok (r, false)
unfolding process_action_group_states process_performed
pass-IsIdle limits env r none idle = refl
pass-IsIdle limits env r (some actions) idle = rw idle refl

module _ {ℓ} {Error : Type ℓ} (is_retry_exceeded : Error → Bool) (limits : Limits)
    (unchecked : limits.suppress_compatibility_check ≡ true) where
  -- A round in which nothing happens.
  abbrev pub IsQuiet : Round Error → Type 0
  IsQuiet round = (round.canceled ≡ false) × IsIdle round.refreshed

  refresh_unchecked :
      (r : State) (nodes : Fetched Error) (task : Task)
      (next : State → Task → State × LoopEnd Error)
      → after_refresh is_retry_exceeded limits r nodes task next ≡ next r task
  refresh_unchecked r nodes none next = refl
  refresh_unchecked r nodes (some actions) next = rw unchecked refl

  idle_round :
      (r : State) (task : Task) (round : Round Error) (rounds : List (Round Error))
      → IsIdle task
      → round.canceled ≡ false
      → cms_waiting_loop is_retry_exceeded limits r task (round ∷ rounds)
        ≡ cms_waiting_loop is_retry_exceeded limits r round.refreshed rounds
  unfolding cms_waiting_loop
  idle_round r task round rounds idle going =
      rw (pass-IsIdle limits round.environment r task idle, going)
        (refresh_unchecked r round.nodes round.refreshed
          (λ r' task'. cms_waiting_loop is_retry_exceeded limits r' task' rounds))

  -- Quiet rounds leave the state as it is.
  quiet_rounds :
      (r : State) (task : Task) (quiet : List (Round Error)) (turn : Round Error)
      (rounds : List (Round Error))
      → IsIdle task
      → All IsQuiet quiet
      → turn.canceled ≡ false
      → cms_waiting_loop is_retry_exceeded limits r task (quiet ++ turn ∷ rounds)
        ≡ cms_waiting_loop is_retry_exceeded limits r turn.refreshed rounds
  quiet_rounds r task [] turn rounds idle h going = idle_round r task turn rounds idle going
  quiet_rounds r task (round ∷ quiet) turn rounds idle ((on, still), h) going =
      idle_round r task round (quiet ++ turn ∷ rounds) idle on
      ∙ quiet_rounds r round.refreshed quiet turn rounds still h going

  completed_pass :
      (r r' : State) (actions : List ActionGroupStates) (last : Round Error)
      (batches : List (List ActionGroupStates))
      → process_action_group_states limits last.environment r actions ≡ ok (batches, (r', true))
      → cms_waiting_loop is_retry_exceeded limits r (some actions) (last ∷ []) ≡ (r', completed)
  unfolding cms_waiting_loop
  completed_pass r r' actions last batches e = rw e refl

  -- The check of versions is suppressed and nothing cancels the waits. However many rounds pass in which
  -- refreshes fail or CMS has performed no action, once a refresh brings a task with every action
  -- performed, and in the pass over it every restart succeeds and CMS answers with a status for each
  -- action, the loop completes. It ends in the state to which that one pass brings the state in which
  -- the loop began, which the waiting has thus left as it was, and every group is handed to a handler.
  pub cms_waiting_loop-completes :
      (r : State) (task : Task) (quiet : List (Round Error)) (turn last : Round Error)
      (actions : List ActionGroupStates) (statuses : List RestartStatus)
      → IsIdle task
      → All IsQuiet quiet
      → turn.canceled ≡ false
      → turn.refreshed ≡ some actions
      → channel_made limits ≡ true
      → actions ≢ []
      → All (λ gs. is_performed gs.first_state.status ≡ true) actions
      → All (IsKnown r) actions
      → r.unreported_but_finished_action_ids ≡ []
      → Succeeded statuses
      → length statuses ≡ length actions
      → ((batches : List (List ActionGroupStates))
          → last.environment.restarts batches ≡ map received statuses)
      → ((reported : List ActionUid)
          → last.environment.complete_action reported ≡ some (length reported))
      → (r' : State) × (batches : List (List ActionGroupStates)) × (cms_waiting_loop
            is_retry_exceeded limits r task
            (quiet ++ turn ∷ last ∷ [])
          ≡ (r', completed))
        × (process_action_group_states limits last.environment r actions ≡ ok (batches, (r', true)))
        × HoldsEach batches actions
        × (r'.completed_actions ≡ uids statuses)
  cms_waiting_loop-completes r task quiet turn last actions statuses idle h going brings room
        nonempty done known fresh good count restarts acks =
      let (r', batches, e, each, reported, _) =
        process_action_group_states_completes limits last.environment r actions statuses room
          nonempty done known fresh good count restarts acks in
      (
        r',
        batches,
        quiet_rounds r task quiet turn (last ∷ []) idle h going
            ∙ (rw brings refl ∙ completed_pass r r' actions last batches e),
        e,
        each,
        reported,
      )
