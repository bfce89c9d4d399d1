-- ===== src/Rolling/Loop.antt =====
-- rolling.go: `cmsWaitingLoop` and the end of `Execute`. The loop runs over what each of its rounds
-- meets; delays are left out, but a cancellation ends the wait.
use ydbops.Base.{Bool, true, false, Option, none, some, List, [], ◌∷◌, if◌then◌else◌}
use ydbops.Cluster.{ActionGroupStates}
use ydbops.Rolling.State.{Limits, State}
use ydbops.Rolling.Actions.{Outcome, ok, panic, ◌>>=◌, Environment, process_action_group_states}
use ydbops.Rolling.Compat.{
  Issue, Compatibility, compatible, not_fetched, incompatible, Fetched,
  try_detect_compatibility_issues,
}

-- The groups of a task; `none` where the last refresh failed.
abbrev pub Task : Type 0
Task = Option (List ActionGroupStates)

-- What a round meets: the pass, the context while it waits, the refreshed task, and the nodes for the
-- check of versions.
pub record Round {ℓ} (Error : Type ℓ) : Type ℓ where
  pub environment : Environment
  pub canceled : Bool
  pub refreshed : Task
  pub nodes : Fetched Error

-- How the loop ends; `waiting` is a loop that has not ended after the rounds.
pub data LoopEnd {ℓ} (Error : Type ℓ) : Type ℓ where
  completed canceled panicked : LoopEnd Error
  fails_with : Error → LoopEnd Error
  found_issues : List Issue → LoopEnd Error
  waiting : Task → LoopEnd Error

abbrev pub pass : Limits → Environment → State → Task → Outcome (State × Bool)
pass limits env r none = ok (r, false)
pass limits env r (some actions) =
    process_action_group_states limits env r actions >>= λ (batches, end). ok end

module _ {ℓ} {Error : Type ℓ} (is_retry_exceeded : Error → Bool) (limits : Limits) where
  -- What follows the check: `next` where the loop goes on.
  abbrev pub after_check :
      State × Compatibility Error → (State → State × LoopEnd Error) → State × LoopEnd Error
  after_check (r, compatible) next = next r
  after_check (r, incompatible issues) next = (r, found_issues issues)
  after_check (r, not_fetched err) next =
      if is_retry_exceeded err then next r else (r, fails_with err)

  -- The rest of a round after its pass.
  abbrev pub after_refresh :
      State → Fetched Error → Task → (State → Task → State × LoopEnd Error) → State × LoopEnd Error
  after_refresh r nodes none next = next r none
  after_refresh r nodes (some actions) next =
      if limits.suppress_compatibility_check
      then next r (some actions)
      else after_check (try_detect_compatibility_issues r nodes) (λ r'. next r' (some actions))

  abbrev pub after_pass :
      Round Error
      → (State → Task → State × LoopEnd Error)
      → State
      → Outcome (State × Bool)
      → State × LoopEnd Error
  after_pass round next r panic = (r, panicked)
  after_pass round next r (ok (r', true)) = (r', completed)
  after_pass round next r (ok (r', false)) =
      if round.canceled then (r', canceled) else after_refresh r' round.nodes round.refreshed next

  unfoldable pub cms_waiting_loop : State → Task → List (Round Error) → State × LoopEnd Error
  cms_waiting_loop r task [] = (r, waiting task)
  cms_waiting_loop r task (round ∷ rounds) =
      after_pass round (λ r' task'. cms_waiting_loop r' task' rounds) r
        (pass limits round.environment r task)
