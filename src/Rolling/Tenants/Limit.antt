-- ===== src/Rolling/Tenants/Limit.antt =====
-- rolling.go and restart_handler.go: how many nodes are restarted at a time.
use native.Mathlib.Nat.{mul-le-mul_left}
use mathlib.Core.Path.{subst}
use ydbops.Base.{
  ℕ, suc, ◌+◌, ◌*◌, ◌≤◌, ◌≡◌, refl, sym, ap, ◌∙◌, true, List, [], ◌∷◌, arith, length, length-append,
  All, All-replace, All-remove, All-middle, length-replace,
}
use ydbops.Cluster.{ActionGroupStates}
use ydbops.Rolling.Handler.{
  Setup, restart_nil, all_ended, Worker, waiting, restarting, delaying, ended, crashed, Handler,
  Move, take, take_other, see_closed, see_canceled, send, delay_over, delay_canceled, Step, work,
  skip_push, close_queue, receive, stop_receiving, cancel,
}
use ydbops.Rolling.Handler.Kept.{start-staffed}
use ydbops.Rolling.Tenants.{
  TenantHandler, Tenants, start_tenants, own_part, TenantStep, begin, give_up, handle, between,
  finish, TenantRun, here, next,
}

-- The nodes that the workers restart just now.
abbrev pub restarts_now : List Worker → ℕ
restarts_now [] = 0
restarts_now (restarting gs scope ∷ workers) = suc (restarts_now workers)
restarts_now (_ ∷ workers) = restarts_now workers

abbrev pub all_restarts_now : List TenantHandler → ℕ
all_restarts_now [] = 0
all_restarts_now (t ∷ handlers) = restarts_now t.workers + all_restarts_now handlers

restarts_now_bound : (workers : List Worker) → restarts_now workers ≤ length workers
restarts_now_bound [] = omega arith
restarts_now_bound (waiting ∷ workers) = omega (arith, restarts_now_bound workers)
restarts_now_bound (restarting gs scope ∷ workers) = omega (arith, restarts_now_bound workers)
restarts_now_bound (delaying ∷ workers) = omega (arith, restarts_now_bound workers)
restarts_now_bound (ended ∷ workers) = omega (arith, restarts_now_bound workers)
restarts_now_bound (crashed gs ∷ workers) = omega (arith, restarts_now_bound workers)

restarts_now-all_ended :
    (workers : List Worker) → all_ended workers ≡ true → restarts_now workers ≡ 0
restarts_now-all_ended [] e = refl
restarts_now-all_ended (ended ∷ workers) e = restarts_now-all_ended workers e
restarts_now-all_ended (waiting ∷ workers) e = cc
restarts_now-all_ended (restarting gs scope ∷ workers) e = cc
restarts_now-all_ended (delaying ∷ workers) e = cc
restarts_now-all_ended (crashed gs ∷ workers) e = cc

Move-workers :
    {setup : Setup} {h h' : Handler} {v w : Worker} → Move setup h v w h' → h'.workers ≡ h.workers
Move-workers (take gs scope rest e locked) = refl
Move-workers (take_other gs rest e other) = refl
Move-workers (see_closed e) = refl
Move-workers (see_canceled e) = refl
Move-workers (send gs scope node fails known room) = refl
Move-workers (restart_nil gs scope e) = refl
Move-workers delay_over = refl
Move-workers (delay_canceled e) = refl

-- No step adds a worker.
Step-staffed :
    {setup : Setup} {h h' : Handler} → Step setup h h' → length h'.workers ≡ length h.workers
Step-staffed (work {v} {w} before after at move) =
    length-replace before after w v ∙ ap length (sym at)
Step-staffed (skip_push gs rest c e) = refl
Step-staffed (close_queue e still) = refl
Step-staffed (receive st rest n on more e) = refl
Step-staffed (stop_receiving c on) = refl
Step-staffed (cancel c) = refl

abbrev Staffed : ℕ → TenantHandler → Type 0
Staffed nodes_inflight t = length t.workers ≡ nodes_inflight

record Within (nodes_inflight tenants_inflight : ℕ) (d : Tenants) : Type 0 where
  staffed : All (Staffed nodes_inflight) d.handlers
  few : length d.handlers ≤ tenants_inflight
  over_idle : all_restarts_now d.over ≡ 0

module _ {nodes_inflight tenants_inflight : ℕ} where
  TenantStep-Within :
      {setup : Setup} {d d' : Tenants}
      → Within nodes_inflight tenants_inflight d
      → TenantStep nodes_inflight tenants_inflight setup d d'
      → Within nodes_inflight tenants_inflight d'
  TenantStep-Within inv (begin groups rest e room) = record {
    staffed = (start-staffed nodes_inflight, inv.staffed);
    few = omega (arith, room);
    over_idle = inv.over_idle;
  }
  TenantStep-Within inv (give_up c) = record {
    staffed = inv.staffed;
    few = inv.few;
    over_idle = inv.over_idle;
  }
  TenantStep-Within {d} inv (handle {t} {h} before after at step) =
      let handlers = subst (All (Staffed nodes_inflight)) at inv.staffed in
      record {
        staffed =
            All-replace (Staffed nodes_inflight) before after t (own_part h) handlers
              (Step-staffed step ∙ All-middle (Staffed nodes_inflight) before after t handlers);
        few = omega (arith, inv.few, ap length at, length-replace before after t (own_part h));
        over_idle = inv.over_idle;
      }
  TenantStep-Within inv (between step) = record {
    staffed = inv.staffed;
    few = inv.few;
    over_idle = inv.over_idle;
  }
  TenantStep-Within inv (finish t before after at over c) = record {
    staffed =
        All-remove (Staffed nodes_inflight) before after t
          (subst (All (Staffed nodes_inflight)) at inv.staffed);
    few = omega (
      arith,
      inv.few,
      ap length at,
      length-append before (t ∷ after),
      length-append before after,
    );
    over_idle = omega (arith, inv.over_idle, restarts_now-all_ended t.workers over);
  }

  TenantRun-Within :
      {setup : Setup} {d d' : Tenants}
      → Within nodes_inflight tenants_inflight d
      → TenantRun nodes_inflight tenants_inflight setup d d'
      → Within nodes_inflight tenants_inflight d'
  TenantRun-Within inv here = inv
  TenantRun-Within inv (next run step) = TenantStep-Within (TenantRun-Within inv run) step

module _ (nodes_inflight : ℕ) where
  all_restarts_now_bound :
      (handlers : List TenantHandler)
      → All (Staffed nodes_inflight) handlers
      → all_restarts_now handlers ≤ nodes_inflight * length handlers
  all_restarts_now_bound [] h = omega arith
  all_restarts_now_bound (t ∷ handlers) (p, h) =
      omega (arith, all_restarts_now_bound handlers h, restarts_now_bound t.workers, p)

  each_bound :
      (handlers : List TenantHandler)
      → All (Staffed nodes_inflight) handlers
      → All (λ t. restarts_now t.workers ≤ nodes_inflight) handlers
  each_bound [] h = tt
  each_bound (t ∷ handlers) (p, h) =
      (omega (arith, restarts_now_bound t.workers, p), each_bound handlers h)

idle_bound :
    (n : ℕ) (handlers : List TenantHandler)
    → all_restarts_now handlers ≡ 0
    → All (λ t. restarts_now t.workers ≤ n) handlers
idle_bound n [] idle = tt
idle_bound n (t ∷ handlers) idle =
    (omega (arith, idle), idle_bound n handlers (omega (arith, idle)))

-- At any time, in any order of steps and canceled or not, no handler has more nodes in a restart than
-- `--nodes-inflight` says, and all handlers together, those included that have given their places in
-- the semaphore back, have no more than that times `--tenants-inflight`.
pub TenantRun-limit :
    (nodes_inflight tenants_inflight : ℕ) (setup : Setup) (tenants : List (List ActionGroupStates))
    (d : Tenants)
    → TenantRun nodes_inflight tenants_inflight setup (start_tenants tenants) d
    → All (λ t. restarts_now t.workers ≤ nodes_inflight) d.handlers
      × All (λ t. restarts_now t.workers ≤ nodes_inflight) d.over
      × (all_restarts_now d.handlers + all_restarts_now d.over ≤ nodes_inflight * tenants_inflight)
TenantRun-limit nodes_inflight tenants_inflight setup tenants d run =
    let inv = TenantRun-Within (record { staffed = tt; few = omega arith; over_idle = refl }) run in
    (
      each_bound nodes_inflight d.handlers inv.staffed,
      idle_bound nodes_inflight d.over inv.over_idle,
      omega (
        arith,
        inv.over_idle,
        all_restarts_now_bound nodes_inflight d.handlers inv.staffed,
        mul-le-mul_left nodes_inflight inv.few,
      ),
    )
