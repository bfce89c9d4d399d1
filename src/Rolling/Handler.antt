-- ===== src/Rolling/Handler.antt =====
-- restart_handler.go: the workers of a restart handler, `dispatchAll` that pushes to them, and the
-- goroutine of `handleRestartStatus`, as steps in any order. The channel `queue` has no buffer, so a
-- push and a receive are one step; `statusCh` holds so many
-- statuses as the setup says.
pub mod Weights
pub mod Conserved
pub mod Kept
pub mod Progress
pub mod Bounded
pub mod Refines
mod Tests
use ydbops.Base.{
  ℕ, zero, suc, ◌<◌, ◌≡◌, Bool, true, false, Option, none, some, List, [], ◌∷◌, ◌++◌, length,
  num_comparable,
}
use ydbops.Collections.{get}
use ydbops.Cluster.{Node, ActionGroupStates, Scope, get_node_id}
use ydbops.Rolling.State.{RestartStatus}

-- Where a worker is: in its first `select`, in `RestartNode`, in its second `select`, at its end, or in
-- a panic: on an action that is no lock, or in `RestartNode`, which reads a node through a nil pointer where
-- the node is not known.
pub data Worker : Type 0 where
  waiting : Worker
  restarting : ActionGroupStates → Scope → Worker
  delaying : Worker
  ended : Worker
  crashed : ActionGroupStates → Worker

-- `to_push` are the groups that `dispatchAll` has not pushed yet, `expected` the statuses that
-- `handleRestartStatus` still waits for.
pub record Handler : Type 0 where
  pub workers : List Worker
  pub to_push : List ActionGroupStates
  pub closed : Bool
  pub status_ch : List RestartStatus
  pub received : List RestartStatus
  pub expected : ℕ
  pub receiving : Bool
  pub canceled : Bool

-- `newRestartHandler` and `run`, for the groups that `dispatchAll` is given.
abbrev pub start_workers : ℕ → List Worker
start_workers zero = []
start_workers (suc n) = waiting ∷ start_workers n

abbrev pub start_handler : ℕ → List ActionGroupStates → Handler
start_handler nodes_inflight groups = record {
  workers = start_workers nodes_inflight;
  to_push = groups;
  closed = false;
  status_ch = [];
  received = [];
  expected = length groups;
  receiving = true;
  canceled = false;
}

abbrev pub status_for : ActionGroupStates → Scope → Bool → RestartStatus
status_for gs scope fails = record {
  node_id = get_node_id scope;
  action_state = gs.first_state;
  failed = fails;
}

-- The size of `statusCh`, and the nodes that the handler is given.
pub record Setup : Type 0 where
  pub capacity : ℕ
  pub nodes : List (ℕ × Node)

-- What one worker does, with what it does to the rest of the handler.
pub data Move (setup : Setup) (h : Handler) : Worker → Worker → Handler → Type 0 where
  take :
      (gs : ActionGroupStates) (scope : Scope) (rest : List ActionGroupStates)
      → h.to_push ≡ gs ∷ rest
      → gs.first_state.lock ≡ some scope
      → Move setup h waiting (restarting gs scope) (record h { to_push = rest })
  take_other :
      (gs : ActionGroupStates) (rest : List ActionGroupStates)
      → h.to_push ≡ gs ∷ rest
      → gs.first_state.lock ≡ none
      → Move setup h waiting (crashed gs) (record h { to_push = rest })
  see_closed : h.closed ≡ true → Move setup h waiting ended h
  see_canceled : h.canceled ≡ true → Move setup h waiting ended h
  send :
      (gs : ActionGroupStates) (scope : Scope) (node : Node) (fails : Bool)
      → get setup.nodes (get_node_id scope) ≡ some node
      → length h.status_ch < setup.capacity
      → Move setup h
          (restarting gs scope)
          delaying
          (record h { status_ch = h.status_ch ++ status_for gs scope fails ∷ [] })
  restart_nil :
      (gs : ActionGroupStates) (scope : Scope)
      → get setup.nodes (get_node_id scope) ≡ none
      → Move setup h (restarting gs scope) (crashed gs) h
  delay_over : Move setup h delaying waiting h
  delay_canceled : h.canceled ≡ true → Move setup h delaying ended h

-- A step of a worker, of `dispatchAll`, of `handleRestartStatus`, or the cancellation of the context.
pub data Step (setup : Setup) (h : Handler) : Handler → Type 0 where
  work :
      {v w : Worker} {h' : Handler} (before after : List Worker)
      → h.workers ≡ before ++ v ∷ after
      → Move setup h v w h'
      → Step setup h (record h' { workers = before ++ w ∷ after })
  skip_push :
      (gs : ActionGroupStates) (rest : List ActionGroupStates)
      → h.canceled ≡ true
      → h.to_push ≡ gs ∷ rest
      → Step setup h (record h { to_push = rest })
  close_queue : h.to_push ≡ [] → h.closed ≡ false → Step setup h (record h { closed = true })
  receive :
      (st : RestartStatus) (rest : List RestartStatus) (n : ℕ)
      → h.receiving ≡ true
      → h.expected ≡ suc n
      → h.status_ch ≡ st ∷ rest
      → Step setup h (record h { status_ch = rest; received = h.received ++ st ∷ []; expected = n })
  stop_receiving :
      h.canceled ≡ true → h.receiving ≡ true → Step setup h (record h { receiving = false })
  cancel : h.canceled ≡ false → Step setup h (record h { canceled = true })

-- Runs of so many steps.
pub data Run (setup : Setup) (h : Handler) : ℕ → Handler → Type 0 where
  here : Run setup h zero h
  next : {n : ℕ} {i j : Handler} → Run setup h n i → Step setup i j → Run setup h (suc n) j

-- `wg.Wait()` and `<-done` both return: the workers have ended, and `handleRestartStatus` has all its
-- statuses or has stopped.
abbrev pub all_ended : List Worker → Bool
all_ended [] = true
all_ended (ended ∷ workers) = all_ended workers
all_ended (_ ∷ workers) = false
