-- ===== src/Rolling/Handler/Conserved.antt =====
-- restart_handler.go: no group is restarted twice, and without a cancellation none is lost.
use ydbops.Base.{ℕ, zero, suc, ◌+◌, ◌≤◌, ◌≡◌, refl, sym, ap, ◌∙◌, false, List, [], ◌∷◌, ◌++◌, arith}
use ydbops.Cluster.{ActionUid, ActionGroupStates}
use ydbops.Rolling.Handler.{
  Setup, restart_nil, Worker, Handler, start_workers, start_handler, Move, take, take_other,
  see_closed, see_canceled, send, delay_over, delay_canceled, Step, work, skip_push, close_queue,
  receive, stop_receiving, cancel, Run, here, next,
}
use ydbops.Rolling.Handler.Weights.{
  groups_weight, statuses_weight, worker_weight, workers_weight, statuses_weight-append,
  workers_weight-append,
}

module _ (f : ActionUid → ℕ) where
  -- What is not with a worker: to be pushed, or restarted.
  abbrev pub rest_weight : Handler → ℕ
  rest_weight h =
      groups_weight f h.to_push + (statuses_weight f h.status_ch + statuses_weight f h.received)

  abbrev pub handler_weight : Handler → ℕ
  handler_weight h = workers_weight f h.workers + rest_weight h

  -- The workers but the one that moves keep their groups.
  Move-weight :
      {setup : Setup} {h h' : Handler} {v w : Worker}
      → Move setup h v w h'
      → (worker_weight f w + rest_weight h' ≡ worker_weight f v + rest_weight h)
        × (h'.canceled ≡ h.canceled)
  Move-weight (take gs scope rest e locked) = (omega (arith, ap (groups_weight f) e), refl)
  Move-weight (take_other gs rest e other) = (omega (arith, ap (groups_weight f) e), refl)
  Move-weight (see_closed e) = (refl, refl)
  Move-weight (see_canceled e) = (refl, refl)
  Move-weight {h} (send gs scope node fails known room) =
      (omega (arith, statuses_weight-append f h.status_ch _), refl)
  Move-weight (restart_nil gs scope e) = (refl, refl)
  Move-weight delay_over = (refl, refl)
  Move-weight (delay_canceled e) = (refl, refl)

  replaced :
      (before after : List Worker) (v : Worker)
      → workers_weight f (before ++ v ∷ after)
        ≡ worker_weight f v + (workers_weight f before + workers_weight f after)
  replaced before after v = omega (arith, workers_weight-append f before (v ∷ after))

  -- A step makes no weight; without a cancellation it loses none.
  abbrev pub Keeps : Handler → Handler → Type 0
  Keeps h h' =
      (handler_weight h' ≤ handler_weight h)
      × (h'.canceled ≡ false → (h.canceled ≡ false) × (handler_weight h' ≡ handler_weight h))

  equal-Keeps :
      (h h' : Handler)
      → handler_weight h' ≡ handler_weight h
      → h'.canceled ≡ h.canceled
      → Keeps h h'
  equal-Keeps h h' e c = (omega (arith, e), λ going. (sym c ∙ going, e))

  pub Step-Keeps : {setup : Setup} {h h' : Handler} → Step setup h h' → Keeps h h'
  Step-Keeps {h} {h'} (work {v} {w} before after at move) =
      let (weights, c) = Move-weight move in
      equal-Keeps h h'
        (omega (
          arith,
          weights,
          replaced before after v,
          replaced before after w,
          ap (workers_weight f) at,
        ))
        c
  Step-Keeps {h} {h'} (skip_push gs rest c e) = (omega (arith, ap (groups_weight f) e), λ going. cc)
  Step-Keeps {h} {h'} (close_queue e open_still) = equal-Keeps h h' refl refl
  Step-Keeps {h} {h'} (receive st rest n on more e) =
      equal-Keeps h h'
        (omega (arith, ap (statuses_weight f) e, statuses_weight-append f h.received (st ∷ [])))
        refl
  Step-Keeps {h} {h'} (stop_receiving c on) = equal-Keeps h h' refl refl
  Step-Keeps {h} {h'} (cancel c) = (omega arith, λ going. cc)

  Run-Keeps : {setup : Setup} {h : Handler} {n : ℕ} {h' : Handler} → Run setup h n h' → Keeps h h'
  Run-Keeps {h} here = equal-Keeps h h refl refl
  Run-Keeps (next run step) =
      let (less, same) = Run-Keeps run in
      let (less', same') = Step-Keeps step in
      (
        omega (arith, less, less'),
        λ going. let (still, e') = same' going in let (start, e) = same still in (start, e' ∙ e),
      )

  pub start_workers-weight : (n : ℕ) → workers_weight f (start_workers n) ≡ 0
  start_workers-weight zero = refl
  start_workers-weight (suc n) = omega (arith, start_workers-weight n)

  start-weight :
      (nodes_inflight : ℕ) (groups : List ActionGroupStates)
      → handler_weight (start_handler nodes_inflight groups) ≡ groups_weight f groups
  start-weight nodes_inflight groups = omega (arith, start_workers-weight nodes_inflight)

  -- In whatever order the workers, the pushes and the receipts come, and with a cancellation or not: the
  -- actions in the statuses, with those of the groups that a worker holds or that are still to be pushed,
  -- weigh no more than the groups given, for any weight of the actions. So no action is restarted more
  -- often than it was given. While nothing is canceled they weigh the same: none is lost.
  pub handler_weight_lem :
      (setup : Setup) (nodes_inflight n : ℕ) (groups : List ActionGroupStates) (h : Handler)
      → Run setup (start_handler nodes_inflight groups) n h
      → (handler_weight h ≤ groups_weight f groups)
        × (h.canceled ≡ false → handler_weight h ≡ groups_weight f groups)
  handler_weight_lem setup nodes_inflight n groups h run =
      let (less, same) = Run-Keeps run in
      (
        omega (arith, less, start-weight nodes_inflight groups),
        λ going. (same going).1 ∙ start-weight nodes_inflight groups,
      )
