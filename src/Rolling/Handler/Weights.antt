-- ===== src/Rolling/Handler/Weights.antt =====
-- Sums of a weight of actions over the groups, the workers and the statuses of a restart handler.
use ydbops.Base.{ℕ, ◌+◌, ◌≡◌, List, [], ◌∷◌, ◌++◌, arith}
use ydbops.Cluster.{ActionUid, ActionGroupStates}
use ydbops.Rolling.State.{RestartStatus}
use ydbops.Rolling.Actions.{uid_of}
use ydbops.Rolling.Handler.{Worker, restarting, crashed}

module _ (f : ActionUid → ℕ) where
  abbrev pub groups_weight : List ActionGroupStates → ℕ
  groups_weight [] = 0
  groups_weight (gs ∷ groups) = f (uid_of gs) + groups_weight groups

  abbrev pub statuses_weight : List RestartStatus → ℕ
  statuses_weight [] = 0
  statuses_weight (st ∷ statuses) = f st.action_state.action_uid + statuses_weight statuses

  -- The group that a worker holds.
  abbrev pub worker_weight : Worker → ℕ
  worker_weight (restarting gs scope) = f (uid_of gs)
  worker_weight (crashed gs) = f (uid_of gs)
  worker_weight _ = 0

  abbrev pub workers_weight : List Worker → ℕ
  workers_weight [] = 0
  workers_weight (w ∷ workers) = worker_weight w + workers_weight workers

  pub statuses_weight-append :
      (xs ys : List RestartStatus)
      → statuses_weight (xs ++ ys) ≡ statuses_weight xs + statuses_weight ys
  statuses_weight-append [] ys = omega arith
  statuses_weight-append (x ∷ xs) ys = omega (arith, statuses_weight-append xs ys)

  pub workers_weight-append :
      (xs ys : List Worker) → workers_weight (xs ++ ys) ≡ workers_weight xs + workers_weight ys
  workers_weight-append [] ys = omega arith
  workers_weight-append (x ∷ xs) ys = omega (arith, workers_weight-append xs ys)
