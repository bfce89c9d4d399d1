-- ===== src/Rolling/Handler/Progress.antt =====
-- restart_handler.go: without a cancellation a handler does not get stuck.
use ydbops.Base.{
  ℕ, zero, suc, ◌+◌, ◌<◌, ◌≡◌, refl, ap, ◌∙◌, ◌⊎◌, inl, inr, Bool, true, false, Bool-cases, List,
  [], ◌∷◌, ◌++◌, arith, length, All,
}
use mathlib.Core.Path.{subst}
use ydbops.Cluster.{ActionUid, ActionGroupStates}
use ydbops.Rolling.State.{RestartStatus}
use ydbops.Rolling.Handler.{
  Setup, Worker, waiting, restarting, delaying, ended, crashed, Handler, start_handler, take,
  see_closed, send, delay_over, Step, work, close_queue, receive, Run, all_ended,
}
use ydbops.Rolling.Handler.Weights.{groups_weight, statuses_weight, workers_weight}
use ydbops.Rolling.Handler.Conserved.{handler_weight, handler_weight_lem}
use ydbops.Rolling.Handler.Kept.{IsLock, IsFine, Inv, Run-Inv, start-Inv, restarting_fine}

abbrev pub one : ActionUid → ℕ
one uid = 1

pub groups_weight-one : (groups : List ActionGroupStates) → groups_weight one groups ≡ length groups
groups_weight-one [] = refl
groups_weight-one (gs ∷ groups) = omega (arith, groups_weight-one groups)

pub statuses_weight-one :
    (statuses : List RestartStatus) → statuses_weight one statuses ≡ length statuses
statuses_weight-one [] = refl
statuses_weight-one (st ∷ statuses) = omega (arith, statuses_weight-one statuses)

pub workers_weight-all_ended :
    (f : ActionUid → ℕ) (workers : List Worker)
    → all_ended workers ≡ true
    → workers_weight f workers ≡ 0
workers_weight-all_ended f [] e = refl
workers_weight-all_ended f (ended ∷ workers) e = omega (arith, workers_weight-all_ended f workers e)
workers_weight-all_ended f (waiting ∷ workers) e = cc
workers_weight-all_ended f (restarting gs scope ∷ workers) e = cc
workers_weight-all_ended f (delaying ∷ workers) e = cc
workers_weight-all_ended f (crashed gs ∷ workers) e = cc

abbrev IsBusy : Worker → Type 0
IsBusy ended = ⊥
IsBusy (crashed gs) = ⊥
IsBusy _ = Unit

-- A worker among these that has not ended.
abbrev Busy : List Worker → Type 0
Busy workers =
    (before : List Worker) × (v : Worker) × (after : List Worker) × (workers ≡ before ++ v ∷ after)
    × IsBusy v

find-Busy :
    (setup : Setup) (closed canceled : Bool) (workers : List Worker)
    → All (IsFine setup closed canceled) workers
    → (all_ended workers ≡ true) ⊎ Busy workers
find-Busy setup closed canceled [] h = inl refl
find-Busy setup closed canceled (waiting ∷ workers) h = inr ([], waiting, workers, refl, tt)
find-Busy setup closed canceled (restarting gs scope ∷ workers) h =
    inr ([], restarting gs scope, workers, refl, tt)
find-Busy setup closed canceled (delaying ∷ workers) h = inr ([], delaying, workers, refl, tt)
find-Busy setup closed canceled (crashed gs ∷ workers) (p, h) = absurd p
find-Busy setup closed canceled (ended ∷ workers) (p, h) =
    elim (find-Busy setup closed canceled workers h) [
      | inl e ↦ inl e
      | inr (before, v, after, e, busy) ↦
          inr (ended ∷ before, v, after, ap (λ ws. ended ∷ ws) e, busy)
    ]

-- Where some worker is and all have ended, the queue is closed.
ended-closed :
    (setup : Setup) (closed canceled : Bool) (workers : List Worker)
    → All (IsFine setup closed canceled) workers
    → all_ended workers ≡ true
    → 0 < length workers
    → canceled ≡ false
    → closed ≡ true
ended-closed setup closed canceled [] h e some_worker going = absurd (omega (arith, some_worker))
ended-closed setup closed canceled (ended ∷ workers) (p, h) e some_worker going = p going
ended-closed setup closed canceled (waiting ∷ workers) h e some_worker going = cc
ended-closed setup closed canceled (restarting gs scope ∷ workers) h e some_worker going = cc
ended-closed setup closed canceled (delaying ∷ workers) h e some_worker going = cc
ended-closed setup closed canceled (crashed gs ∷ workers) h e some_worker going = cc

list-cases {ℓ} :
    {A : Type ℓ} (xs : List A) → (xs ≡ []) ⊎ ((x : A) × (rest : List A) × (xs ≡ x ∷ rest))
list-cases [] = inl refl
list-cases (x ∷ xs) = inr (x, xs, refl)

number-cases : (n : ℕ) → (n ≡ 0) ⊎ ((m : ℕ) × (n ≡ suc m))
number-cases zero = inl refl
number-cases (suc n) = inr (n, refl)

module _ {setup : Setup} {groups : List ActionGroupStates} {nodes_inflight : ℕ} {h : Handler}
    (inv : Inv setup groups nodes_inflight h) (going : h.canceled ≡ false)
    (weight : handler_weight one h ≡ length groups) where
  -- What is expected is with the workers, to be pushed, or in the channel.
  pub outstanding :
      h.expected ≡ workers_weight one h.workers + length h.to_push + length h.status_ch
  outstanding = omega (
    arith,
    weight,
    inv.counted,
    groups_weight-one h.to_push,
    statuses_weight-one h.status_ch,
    statuses_weight-one h.received,
  )

  receive_first :
      (st : RestartStatus) (rest : List RestartStatus)
      → h.status_ch ≡ st ∷ rest
      → (h' : Handler) × Step setup h h' × (h'.canceled ≡ false)
  receive_first st rest e = elim (number-cases h.expected) [
    | inl nothing ↦ absurd (omega (arith, nothing, outstanding, ap length e))
    | inr (m, more) ↦ (_, receive st rest m (inv.on going) more e, going)
  ]

  module _ (room : length h.status_ch < setup.capacity) where
    busy_moves :
        (before after : List Worker) (v : Worker)
        → h.workers ≡ before ++ v ∷ after
        → IsBusy v
        → (h' : Handler) × Step setup h h' × (h'.canceled ≡ false)
    busy_moves before after ended at busy = absurd busy
    busy_moves before after (crashed gs) at busy = absurd busy
    busy_moves before after delaying at busy = (_, work before after at delay_over, going)
    busy_moves before after (restarting gs scope) at busy =
        let (node, known) = restarting_fine inv before after gs scope at in
        (_, work before after at (send gs scope node false known room), going)
    busy_moves before after waiting at busy = elim (list-cases h.to_push) [
      | inr (gs, rest, e) ↦
          let (scope, locked, _) = (subst (All (IsLock setup)) e inv.locks).0 in
          (_, work before after at (take gs scope rest e locked), going)
      | inl e ↦ elim (Bool-cases h.closed) [
        | inl c ↦ (_, work before after at (see_closed c), going)
        | inr c ↦ (_, close_queue e c, going)
      ]
    ]

  pub finished : 0 < nodes_inflight → h.status_ch ≡ [] → all_ended h.workers ≡ true → h.expected ≡ 0
  finished manned none_sent over =
      let c =
        ended-closed setup h.closed h.canceled h.workers inv.fine over
          (omega (arith, manned, inv.staffed)) going in
      omega (
        arith,
        outstanding,
        workers_weight-all_ended one h.workers over,
        ap length (inv.empty c),
        ap length none_sent,
      )

-- While it is not canceled, a handler whose groups all lock nodes that it is given, with a worker and
-- with room for a status, is never stuck: in every state that it reaches, its workers have all ended
-- and `handleRestartStatus` has all its statuses, or there is a next step other than a cancellation.
pub Run-progress :
    (setup : Setup) (nodes_inflight n : ℕ) (groups : List ActionGroupStates) (h : Handler)
    → All (IsLock setup) groups
    → 0 < nodes_inflight
    → 0 < setup.capacity
    → Run setup (start_handler nodes_inflight groups) n h
    → h.canceled ≡ false
    → ((all_ended h.workers ≡ true) × (h.expected ≡ 0))
      ⊎ ((h' : Handler) × Step setup h h' × (h'.canceled ≡ false))
Run-progress setup nodes_inflight n groups h locks manned room run going =
    let inv = Run-Inv (start-Inv setup groups nodes_inflight locks) run in
    let weight =
      (handler_weight_lem one setup nodes_inflight n groups h run).1 going
      ∙ groups_weight-one groups in
    elim (list-cases h.status_ch) [
      | inr (st, rest, e) ↦ inr (receive_first inv going weight st rest e)
      | inl e ↦ elim (find-Busy setup h.closed h.canceled h.workers inv.fine) [
        | inl over ↦ inl (over, finished inv going weight manned e over)
        | inr (before, v, after, at, busy) ↦
            inr (
              busy_moves inv going weight (omega (arith, room, ap length e)) before after v at busy)
      ]
    ]
