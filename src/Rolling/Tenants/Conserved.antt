-- ===== src/Rolling/Tenants/Conserved.antt =====
-- rolling.go: over all tenants no group is restarted twice, and without a cancellation none is lost.
use mathlib.Core.Path.{subst}
use ydbops.Base.{
  ℕ, ◌+◌, ◌≤◌, ◌≡◌, refl, ap, ◌∙◌, true, false, List, [], ◌∷◌, ◌++◌, arith, length, length-append,
  All, All-replace, All-remove, All-middle,
}
use ydbops.Cluster.{ActionUid, ActionGroupStates}
use ydbops.Rolling.Handler.{
  Setup, restart_nil, Handler, Worker, all_ended, Move, take, take_other, see_closed, see_canceled,
  send, delay_over, delay_canceled, Step, work, skip_push, close_queue, receive, stop_receiving,
  cancel,
}
use ydbops.Rolling.Handler.Weights.{groups_weight, statuses_weight, workers_weight}
use ydbops.Rolling.Handler.Conserved.{Step-Keeps, start_workers-weight}
use ydbops.Rolling.Handler.Progress.{workers_weight-all_ended}
use ydbops.Rolling.Tenants.{
  TenantHandler, Tenants, start_tenants, view, own_part, no_handler, TenantStep, begin, give_up,
  handle, between, finish, TenantRun, here, next,
}

-- A queue is closed when everything has been pushed.
abbrev IsPushed : TenantHandler → Type 0
IsPushed t = t.closed ≡ true → t.to_push ≡ []

nothing_left :
    (h : Handler) (gs : ActionGroupStates) (rest : List ActionGroupStates)
    → (h.closed ≡ true → h.to_push ≡ [])
    → h.to_push ≡ gs ∷ rest
    → h.closed ≡ true
    → rest ≡ []
nothing_left h gs rest pushed e c = let e' = pushed c in cc

Move-IsPushed :
    {setup : Setup} {h h' : Handler} {v w : Worker}
    → (h.closed ≡ true → h.to_push ≡ [])
    → Move setup h v w h'
    → h'.closed ≡ true
    → h'.to_push ≡ []
Move-IsPushed {h} pushed (take gs scope rest e locked) = nothing_left h gs rest pushed e
Move-IsPushed {h} pushed (take_other gs rest e other) = nothing_left h gs rest pushed e
Move-IsPushed pushed (see_closed e) = pushed
Move-IsPushed pushed (see_canceled e) = pushed
Move-IsPushed pushed (send gs scope node fails known room) = pushed
Move-IsPushed pushed (restart_nil gs scope e) = pushed
Move-IsPushed pushed delay_over = pushed
Move-IsPushed pushed (delay_canceled e) = pushed

Step-IsPushed :
    {setup : Setup} {h h' : Handler}
    → (h.closed ≡ true → h.to_push ≡ [])
    → Step setup h h'
    → IsPushed (own_part h')
Step-IsPushed pushed (work before after at move) = Move-IsPushed pushed move
Step-IsPushed {h} pushed (skip_push gs rest c e) = nothing_left h gs rest pushed e
Step-IsPushed pushed (close_queue e still) = λ c. e
Step-IsPushed pushed (receive st rest n on more e) = pushed
Step-IsPushed pushed (stop_receiving c on) = pushed
Step-IsPushed pushed (cancel c) = pushed

TenantStep-IsPushed :
    {nodes_inflight tenants_inflight : ℕ} {setup : Setup} {d d' : Tenants}
    → All IsPushed d.handlers
    → TenantStep nodes_inflight tenants_inflight setup d d'
    → All IsPushed d'.handlers
TenantStep-IsPushed h (begin groups rest e room) = ((λ c. cc), h)
TenantStep-IsPushed h (give_up c) = h
TenantStep-IsPushed h (handle {t} {h = h'} before after at step) =
    let handlers = subst (All IsPushed) at h in
    All-replace IsPushed before after t (own_part h') handlers
      (Step-IsPushed (All-middle IsPushed before after t handlers) step)
TenantStep-IsPushed h (between step) = h
TenantStep-IsPushed h (finish t before after at over c) =
    All-remove IsPushed before after t (subst (All IsPushed) at h)

TenantRun-IsPushed :
    {nodes_inflight tenants_inflight : ℕ} {setup : Setup} {d d' : Tenants}
    → All IsPushed d.handlers
    → TenantRun nodes_inflight tenants_inflight setup d d'
    → All IsPushed d'.handlers
TenantRun-IsPushed h here = h
TenantRun-IsPushed h (next run step) = TenantStep-IsPushed (TenantRun-IsPushed h run) step

module _ (f : ActionUid → ℕ) where
  abbrev pub own_weight : TenantHandler → ℕ
  own_weight t = workers_weight f t.workers + groups_weight f t.to_push

  abbrev pub handlers_weight : List TenantHandler → ℕ
  handlers_weight [] = 0
  handlers_weight (t ∷ handlers) = own_weight t + handlers_weight handlers

  abbrev pub given_weight : List (List ActionGroupStates) → ℕ
  given_weight [] = 0
  given_weight (groups ∷ tenants) = groups_weight f groups + given_weight tenants

  -- With the tenants to come, with their handlers, and restarted.
  abbrev pub tenants_weight : Tenants → ℕ
  tenants_weight d =
      given_weight d.tenants_left
      + handlers_weight d.handlers
      + (statuses_weight f d.status_ch + statuses_weight f d.received)

  handlers_weight-middle :
      (before after : List TenantHandler) (t : TenantHandler)
      → handlers_weight (before ++ t ∷ after) ≡ own_weight t + handlers_weight (before ++ after)
  handlers_weight-middle [] after t = refl
  handlers_weight-middle (x ∷ before) after t = omega (arith, handlers_weight-middle before after t)

  -- A step of the tenants makes no weight; without a cancellation it loses none.
  abbrev TenantKeeps : Tenants → Tenants → Type 0
  TenantKeeps d d' =
      (tenants_weight d' ≤ tenants_weight d)
      × (d'.canceled ≡ false → (d.canceled ≡ false) × (tenants_weight d' ≡ tenants_weight d))

  over_weight :
      (t : TenantHandler)
      → IsPushed t
      → all_ended t.workers ≡ true
      → t.closed ≡ true
      → own_weight t ≡ 0
  over_weight t pushed over c =
      omega (arith, workers_weight-all_ended f t.workers over, ap (groups_weight f) (pushed c))

  -- No handler, no groups.
  between_weight :
      {setup : Setup} (d : Tenants) {h : Handler}
      → Step setup (view d no_handler) h
      → own_weight (own_part h) ≡ 0
  between_weight d (work {v} before after at move) =
      absurd (omega (arith, ap length at, length-append before (v ∷ after)))
  between_weight d (skip_push gs rest c e) = absurd (omega (arith, ap length e))
  between_weight d (close_queue e still) = refl
  between_weight d (receive st rest n on more e) = refl
  between_weight d (stop_receiving c on) = refl
  between_weight d (cancel c) = refl

  TenantStep-TenantKeeps :
      {nodes_inflight tenants_inflight : ℕ} {setup : Setup} {d d' : Tenants}
      → All IsPushed d.handlers
      → TenantStep nodes_inflight tenants_inflight setup d d'
      → TenantKeeps d d'
  TenantStep-TenantKeeps {nodes_inflight} h (begin groups rest e room) = (
    omega (arith, ap given_weight e, start_workers-weight f nodes_inflight),
    λ going. (going, omega (arith, ap given_weight e, start_workers-weight f nodes_inflight)),
  )
  TenantStep-TenantKeeps h (give_up c) = (omega arith, λ going. cc)
  TenantStep-TenantKeeps h (handle {t} {h = h'} before after at step) =
      let (less, same) = Step-Keeps f step in
      (
        omega (
          arith,
          less,
          ap handlers_weight at,
          handlers_weight-middle before after t,
          handlers_weight-middle before after (own_part h'),
        ),
        λ going.
            let (still, e) = same going in
            (
              still,
              omega (
                arith,
                e,
                ap handlers_weight at,
                handlers_weight-middle before after t,
                handlers_weight-middle before after (own_part h'),
              ),
            ),
      )
  TenantStep-TenantKeeps {d} h (between step) =
      let (less, same) = Step-Keeps f step in
      (
        omega (arith, less),
        λ going. let (still, e) = same going in (still, omega (arith, e, between_weight d step)),
      )
  TenantStep-TenantKeeps h (finish t before after at over c) =
      let none_left =
        over_weight t (All-middle IsPushed before after t (subst (All IsPushed) at h)) over c in
      (
        omega (arith, ap handlers_weight at, handlers_weight-middle before after t),
        λ going. (
          going,
          omega (arith, none_left, ap handlers_weight at, handlers_weight-middle before after t),
        ),
      )

  TenantRun-TenantKeeps :
      {nodes_inflight tenants_inflight : ℕ} {setup : Setup} {d d' : Tenants}
      → All IsPushed d.handlers
      → TenantRun nodes_inflight tenants_inflight setup d d'
      → TenantKeeps d d'
  TenantRun-TenantKeeps h here = (omega arith, λ going. (going, refl))
  TenantRun-TenantKeeps h (next run step) =
      let (less, same) = TenantRun-TenantKeeps h run in
      let (less', same') = TenantStep-TenantKeeps (TenantRun-IsPushed h run) step in
      (
        omega (arith, less, less'),
        λ going. let (still, e') = same' going in let (start, e) = same still in (start, e' ∙ e),
      )

  -- With the tenants side by side, in any order of steps and canceled or not: the actions in the statuses,
  -- with those of the groups that are with a handler or still to come, weigh no more than the groups
  -- given, for any weight of the actions, so no action is restarted more often than it was given. While
  -- nothing is canceled they weigh the same: none is lost.
  pub TenantRun-weight :
      (nodes_inflight tenants_inflight : ℕ) (setup : Setup)
      (tenants : List (List ActionGroupStates)) (d : Tenants)
      → TenantRun nodes_inflight tenants_inflight setup (start_tenants tenants) d
      → (tenants_weight d ≤ given_weight tenants)
        × (d.canceled ≡ false → tenants_weight d ≡ given_weight tenants)
  TenantRun-weight nodes_inflight tenants_inflight setup tenants d run =
      let (less, same) = TenantRun-TenantKeeps tt run in
      (omega (arith, less), λ going. omega (arith, (same going).1))
