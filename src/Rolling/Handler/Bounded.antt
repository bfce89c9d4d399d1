-- ===== src/Rolling/Handler/Bounded.antt =====
-- restart_handler.go: a handler takes no more steps than its groups and workers allow.
use ydbops.Base.{
  ℕ, zero, suc, ◌+◌, ◌*◌, ◌≤◌, ◌<◌, ◌≡◌, refl, ap, Bool, true, false, List, [], ◌∷◌, ◌++◌, arith,
  length, length-append,
}
use ydbops.Cluster.{ActionGroupStates}
use ydbops.Rolling.Handler.{
  Setup, restart_nil, Worker, waiting, restarting, delaying, ended, crashed, Handler, start_workers,
  start_handler, Move, take, take_other, see_closed, see_canceled, send, delay_over, delay_canceled,
  Step, work, skip_push, close_queue, receive, stop_receiving, cancel, Run, here, next,
}

-- The steps that a worker may still take by itself.
abbrev steps_left : Worker → ℕ
steps_left waiting = 1
steps_left (restarting gs scope) = 5
steps_left delaying = 2
steps_left ended = 0
steps_left (crashed gs) = 0

abbrev workers_left : List Worker → ℕ
workers_left [] = 0
workers_left (w ∷ workers) = steps_left w + workers_left workers

abbrev one_if : Bool → ℕ
one_if true = 1
one_if false = 0

abbrev zero_if : Bool → ℕ
zero_if true = 0
zero_if false = 1

abbrev rest_left : Handler → ℕ
rest_left h =
    5 * length h.to_push
    + length h.status_ch
    + zero_if h.closed
    + one_if h.receiving
    + zero_if h.canceled

abbrev handler_left : Handler → ℕ
handler_left h = workers_left h.workers + rest_left h

workers_left-append :
    (xs ys : List Worker) → workers_left (xs ++ ys) ≡ workers_left xs + workers_left ys
workers_left-append [] ys = omega arith
workers_left-append (x ∷ xs) ys = omega (arith, workers_left-append xs ys)

Move-left :
    {setup : Setup} {h h' : Handler} {v w : Worker}
    → Move setup h v w h'
    → steps_left w + rest_left h' < steps_left v + rest_left h
Move-left (take gs scope rest e locked) = omega (arith, ap length e)
Move-left (take_other gs rest e other) = omega (arith, ap length e)
Move-left (see_closed e) = omega arith
Move-left (see_canceled e) = omega arith
Move-left {h} (send gs scope node fails known room) = omega (arith, length-append h.status_ch)
Move-left (restart_nil gs scope e) = omega arith
Move-left delay_over = omega arith
Move-left (delay_canceled e) = omega arith

replaced :
    (before after : List Worker) (v : Worker)
    → workers_left (before ++ v ∷ after) ≡ steps_left v + (workers_left before + workers_left after)
replaced before after v = omega (arith, workers_left-append before (v ∷ after))

Step-left : {setup : Setup} {h h' : Handler} → Step setup h h' → handler_left h' < handler_left h
Step-left (work {v} {w} before after at move) =
    omega
      (arith, Move-left move, replaced before after v, replaced before after w, ap workers_left at)
Step-left (skip_push gs rest c e) = omega (arith, ap length e)
Step-left (close_queue e still) = omega (arith, ap zero_if still)
Step-left (receive st rest n on more e) = omega (arith, ap length e)
Step-left (stop_receiving c on) = omega (arith, ap one_if on)
Step-left (cancel c) = omega (arith, ap zero_if c)

Run-left :
    {setup : Setup} {h : Handler} {n : ℕ} {h' : Handler}
    → Run setup h n h'
    → handler_left h' + n ≤ handler_left h
Run-left here = omega arith
Run-left (next run step) = omega (arith, Run-left run, Step-left step)

start-left : (nodes_inflight : ℕ) → workers_left (start_workers nodes_inflight) ≡ nodes_inflight
start-left zero = refl
start-left (suc n) = omega (arith, start-left n)

-- Every run of a handler ends: on so many groups, whatever the order of its steps, it takes at most
-- five steps for each group, one for each worker and three more.
pub Run-bounded :
    (setup : Setup) (nodes_inflight n : ℕ) (groups : List ActionGroupStates) (h : Handler)
    → Run setup (start_handler nodes_inflight groups) n h
    → n ≤ 5 * length groups + nodes_inflight + 3
Run-bounded setup nodes_inflight n groups h run =
    omega (arith, Run-left run, start-left nodes_inflight)
