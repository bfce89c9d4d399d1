-- ===== src/Rolling/Execute.antt =====
-- rolling.go: `DoRestart` as a whole, and `Execute` with its cleanup after a cancellation. The delay and
-- the duration that CMS is asked for are left out.
use ydbops.Base.{String, Bool, true, Option, none, some, List, [], ◌++◌}
use ydbops.Cluster.{ActionGroupStates}
use ydbops.Restarters.{Restarter}
use ydbops.Rolling.State.{Limits, State}
use ydbops.Rolling.Start.{
  Failure, Ran, done, stopped, Replies, Call, Selection, cleanup_rolling_restart, start_restart,
}
use ydbops.Rolling.Loop.{Round, LoopEnd, canceled, cms_waiting_loop}

-- How a restart ends: before its loop, with nothing to restart, or as its loop does in a state.
pub data RestartEnd {ℓ} (Error : Type ℓ) : Type ℓ where
  not_started : Failure → RestartEnd Error
  nothing_to_restart : RestartEnd Error
  looped : State → LoopEnd Error → RestartEnd Error

module _ {ℓ} {Error : Type ℓ} (is_retry_exceeded : Error → Bool) (limits : Limits) where
  abbrev pub loop_with :
      List ActionGroupStates → List (Round Error) → Ran (Option State) → RestartEnd Error
  loop_with groups rounds (stopped failure) = not_started failure
  loop_with groups rounds (done none) = nothing_to_restart
  loop_with groups rounds (done (some r)) =
      let (r', end) = cms_waiting_loop is_retry_exceeded limits r (some groups) rounds in
      looped r' end

  -- `groups` are those of the task that CMS creates.
  unfoldable pub do_restart :
      (String → Bool)
      → Selection
      → Replies
      → Restarter
      → List ActionGroupStates
      → List (Round Error)
      → List Call × RestartEnd Error
  do_restart url_parses opts replies restarter groups rounds =
      let (calls, started) = start_restart url_parses opts replies restarter in
      (calls, loop_with groups rounds started)

  -- What `Execute` asks of CMS after a restart: a canceled one is cleaned up.
  abbrev pub cleanup_after : Bool → Replies → RestartEnd Error → List Call
  cleanup_after true replies (looped r canceled) =
      let (calls, cleaned) = cleanup_rolling_restart replies r in calls
  cleanup_after cleanup_on_exit replies end = []

  -- `later` are the replies at the time of the cleanup.
  unfoldable pub execute :
      (String → Bool)
      → Selection
      → Bool
      → Replies
      → Replies
      → Restarter
      → List ActionGroupStates
      → List (Round Error)
      → List Call × RestartEnd Error
  execute url_parses opts cleanup_on_exit replies later restarter groups rounds =
      let (calls, end) = do_restart url_parses opts replies restarter groups rounds in
      (calls ++ cleanup_after cleanup_on_exit later end, end)
