-- ===== src/Rolling/Handler/Refines.antt =====
-- restart_handler.go: what `handleRestartStatus` has received when the handler has finished.
use ydbops.Base.{
  ℕ, ◌<◌, ◌≡◌, refl, ap, ◌∙◌, inl, inr, Bool, true, false, Bool-cases, List, [], ◌∷◌, ◌==◌, ==_refl,
  eq_of_==, ◌&&◌, text_comparable, if◌then◌else◌, arith, length, All, Memᴰ, All-Memᴰ,
}
use ydbops.Cluster.{ActionUid, ActionGroupStates}
use ydbops.Rolling.State.{RestartStatus}
use ydbops.Rolling.Actions.{uid_of}
use ydbops.Rolling.Pass.{uids}
use ydbops.Rolling.Handler.{Setup, Handler, start_handler, Run, all_ended}
use ydbops.Rolling.Handler.Weights.{groups_weight, statuses_weight}
use ydbops.Rolling.Handler.Conserved.{handler_weight_lem}
use ydbops.Rolling.Handler.Kept.{IsLock, Run-Inv, start-Inv}
use ydbops.Rolling.Handler.Progress.{
  one, groups_weight-one, statuses_weight-one, outstanding, workers_weight-all_ended,
}

-- A handler that was not canceled, whose workers have ended, with nothing more to receive.
pub record IsFinished (h : Handler) : Type 0 where
  pub going : h.canceled ≡ false
  pub over : all_ended h.workers ≡ true
  pub complete : h.expected ≡ 0

-- Two identifiers of actions with the same three texts.
abbrev same_uid : ActionUid → ActionUid → Bool
same_uid u v =
    (u.task_uid == v.task_uid) && ((u.group_id == v.group_id) && (u.action_id == v.action_id))

and_true : (a b : Bool) → (a && b) ≡ true → (a ≡ true) × (b ≡ true)
and_true true true e = (refl, refl)
and_true true false e = cc
and_true false b e = cc

same_uid_refl : (u : ActionUid) → same_uid u u ≡ true
same_uid_refl u = rw (==_refl u.task_uid, ==_refl u.group_id, ==_refl u.action_id) refl

eq_of_same_uid : (u v : ActionUid) → same_uid u v ≡ true → u ≡ v
eq_of_same_uid u v e =
    let (t, more) = and_true (u.task_uid == v.task_uid) _ e in
    let (g, a) = and_true (u.group_id == v.group_id) _ more in
    let t' = eq_of_== u.task_uid v.task_uid t in
    let g' = eq_of_== u.group_id v.group_id g in
    let a' = eq_of_== u.action_id v.action_id a in
    λ i. record { task_uid = t' i; group_id = g' i; action_id = a' i }

-- The weight that counts an action.
abbrev pub occurs : ActionUid → ActionUid → ℕ
occurs u v = if same_uid u v then 1 else 0

occurs_self : (u : ActionUid) → occurs u u ≡ 1
occurs_self u = rw (same_uid_refl u) refl

occurs_other : (u v : ActionUid) → same_uid u v ≡ false → occurs u v ≡ 0
occurs_other u v e = rw e refl

groups_weight-occurs :
    (groups : List ActionGroupStates) (gs : ActionGroupStates)
    → Memᴰ gs groups
    → 0 < groups_weight (occurs (uid_of gs)) groups
groups_weight-occurs [] gs m = elim m [ ]
groups_weight-occurs (g ∷ groups) gs (Memᴰ.head e) =
    omega (arith, occurs_self (uid_of gs), ap (λ g'. occurs (uid_of gs) (uid_of g')) e)
groups_weight-occurs (g ∷ groups) gs (Memᴰ.tail m) = omega (arith, groups_weight-occurs groups gs m)

statuses_weight-occurs :
    (u : ActionUid) (statuses : List RestartStatus)
    → 0 < statuses_weight (occurs u) statuses
    → Memᴰ u (uids statuses)
statuses_weight-occurs u [] some_weight = absurd (omega (arith, some_weight))
statuses_weight-occurs u (st ∷ statuses) some_weight =
    elim (Bool-cases (same_uid u st.action_state.action_uid)) [
      | inl e ↦ Memᴰ.head (eq_of_same_uid u _ e)
      | inr e ↦
          Memᴰ.tail
            (statuses_weight-occurs u statuses (omega (arith, some_weight, occurs_other u _ e)))
    ]

groups_weight_empty :
    (f : ActionUid → ℕ) (groups : List ActionGroupStates)
    → length groups ≡ 0
    → groups_weight f groups ≡ 0
groups_weight_empty f [] e = refl
groups_weight_empty f (gs ∷ groups) e = absurd (omega (arith, e))

statuses_weight_empty :
    (f : ActionUid → ℕ) (statuses : List RestartStatus)
    → length statuses ≡ 0
    → statuses_weight f statuses ≡ 0
statuses_weight_empty f [] e = refl
statuses_weight_empty f (st ∷ statuses) e = absurd (omega (arith, e))

-- Every group weighs in what was received as much as in what was given.
finished-weight :
    (f : ActionUid → ℕ) (setup : Setup) (nodes_inflight n : ℕ) (groups : List ActionGroupStates)
    (h : Handler)
    → All (IsLock setup) groups
    → Run setup (start_handler nodes_inflight groups) n h
    → IsFinished h
    → statuses_weight f h.received ≡ groups_weight f groups
finished-weight f setup nodes_inflight n groups h locks run done =
    let inv = Run-Inv (start-Inv setup groups nodes_inflight locks) run in
    let units =
      (handler_weight_lem one setup nodes_inflight n groups h run).1 done.going
      ∙ groups_weight-one groups in
    let left = outstanding inv done.going units in
    omega (
      arith,
      (handler_weight_lem f setup nodes_inflight n groups h run).1 done.going,
      workers_weight-all_ended f h.workers done.over,
      groups_weight_empty f h.to_push (omega (arith, left, done.complete)),
      statuses_weight_empty f h.status_ch (omega (arith, left, done.complete)),
    )

-- A handler whose groups all lock nodes that it is given, and that has finished without a cancellation,
-- in whatever order its workers took their steps, has delivered one status for each group: as many as
-- there are groups, each action as often as in the groups (any weight of the actions has the same sum
-- over both), the action of every group among them.
pub finished_received :
    (setup : Setup) (nodes_inflight n : ℕ) (groups : List ActionGroupStates) (h : Handler)
    → All (IsLock setup) groups
    → Run setup (start_handler nodes_inflight groups) n h
    → IsFinished h
    → (length h.received ≡ length groups)
      × ((f : ActionUid → ℕ) → statuses_weight f h.received ≡ groups_weight f groups)
      × All (λ gs. Memᴰ (uid_of gs) (uids h.received)) groups
finished_received setup nodes_inflight n groups h locks run done =
    let same =
      λ (f : ActionUid → ℕ). finished-weight f setup nodes_inflight n groups h locks run done in
    (
      omega (arith, same one, statuses_weight-one h.received, groups_weight-one groups),
      same,
      All-Memᴰ (λ gs. Memᴰ (uid_of gs) (uids h.received)) groups
          (λ gs m.
            statuses_weight-occurs (uid_of gs) h.received
              (omega (arith, same (occurs (uid_of gs)), groups_weight-occurs groups gs m))),
    )
