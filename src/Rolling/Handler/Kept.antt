-- ===== src/Rolling/Handler/Kept.antt =====
-- restart_handler.go: what every step of a handler keeps.
use mathlib.Core.Path.{subst}
use ydbops.Base.{
  ℕ, zero, suc, ◌+◌, ◌≡◌, ◌≢◌, refl, sym, ap, ◌∙◌, Bool, true, false, Option, some, none, List, [],
  ◌∷◌, ◌++◌, arith, length, length-append, All, All-replace, All-middle, length-replace,
  num_comparable,
}
use ydbops.Collections.{get}
use ydbops.Cluster.{Node, ActionGroupStates, Scope, get_node_id}
use ydbops.Rolling.Handler.{
  Setup, restart_nil, Worker, waiting, restarting, delaying, ended, crashed, Handler, start_workers,
  start_handler, Move, take, take_other, see_closed, see_canceled, send, delay_over, delay_canceled,
  Step, work, skip_push, close_queue, receive, stop_receiving, cancel, Run, here, next,
}

some-injective : {A : Type 0} {a b : A} → (◌≡◌ {A = Option A} (some a) (some b)) → a ≡ b
some-injective e = cc

-- The node of the scope is known.
abbrev pub HasNode : Setup → Scope → Type 0
HasNode setup scope = (node : Node) × (get setup.nodes (get_node_id scope) ≡ some node)

-- The action of the group is a lock on a node that the handler is given.
abbrev pub IsLock : Setup → ActionGroupStates → Type 0
IsLock setup gs = (scope : Scope) × (gs.first_state.lock ≡ some scope) × HasNode setup scope

-- No worker has crashed, the one that restarts has its node, and without a cancellation one ends only when the queue is closed.
abbrev pub IsFine : Setup → Bool → Bool → Worker → Type 0
IsFine setup closed canceled ended = canceled ≡ false → closed ≡ true
IsFine setup closed canceled (crashed gs) = ⊥
IsFine setup closed canceled (restarting gs scope) = HasNode setup scope
IsFine setup closed canceled _ = Unit

pub record Inv (setup : Setup) (groups : List ActionGroupStates) (nodes_inflight : ℕ) (h : Handler)
    : Type 0 where
  pub counted : h.expected + length h.received ≡ length groups
  pub on : h.canceled ≡ false → h.receiving ≡ true
  pub empty : h.closed ≡ true → h.to_push ≡ []
  pub fine : All (IsFine setup h.closed h.canceled) h.workers
  pub locks : All (IsLock setup) h.to_push
  pub staffed : length h.workers ≡ nodes_inflight

IsFine-mono :
    (setup : Setup) (closed closed' canceled canceled' : Bool) (workers : List Worker)
    → (closed ≡ true → closed' ≡ true)
    → (canceled' ≡ false → canceled ≡ false)
    → All (IsFine setup closed canceled) workers
    → All (IsFine setup closed' canceled') workers
IsFine-mono setup closed closed' canceled canceled' [] up down h = tt
IsFine-mono setup closed closed' canceled canceled' (waiting ∷ workers) up down (p, h) =
    (tt, IsFine-mono setup closed closed' canceled canceled' workers up down h)
IsFine-mono setup closed closed' canceled canceled' (restarting gs scope ∷ workers) up down (p, h) =
    (p, IsFine-mono setup closed closed' canceled canceled' workers up down h)
IsFine-mono setup closed closed' canceled canceled' (delaying ∷ workers) up down (p, h) =
    (tt, IsFine-mono setup closed closed' canceled canceled' workers up down h)
IsFine-mono setup closed closed' canceled canceled' (ended ∷ workers) up down (p, h) = (
  (λ going. up (p (down going))),
  IsFine-mono setup closed closed' canceled canceled' workers up down h,
)
IsFine-mono setup closed closed' canceled canceled' (crashed gs ∷ workers) up down (p, h) = absurd p

module _ {setup : Setup} {groups : List ActionGroupStates} {nodes_inflight : ℕ} {h : Handler}
    (inv : Inv setup groups nodes_inflight h) where
  IsFine-after :
      (before after : List Worker) (v w : Worker)
      → h.workers ≡ before ++ v ∷ after
      → IsFine setup h.closed h.canceled w
      → All (IsFine setup h.closed h.canceled) (before ++ w ∷ after)
  IsFine-after before after v w at q =
      All-replace (IsFine setup h.closed h.canceled) before after v w
        (subst (All (IsFine setup h.closed h.canceled)) at inv.fine) q

  staffed_after :
      (before after : List Worker) (v w : Worker)
      → h.workers ≡ before ++ v ∷ after
      → length (before ++ w ∷ after) ≡ nodes_inflight
  staffed_after before after v w at =
      length-replace before after w v ∙ (ap length (sym at) ∙ inv.staffed)

  unlocked :
      (gs : ActionGroupStates) (rest : List ActionGroupStates)
      → h.to_push ≡ gs ∷ rest
      → gs.first_state.lock ≢ none
  unlocked gs rest e other =
      let (scope, locked, _) = (subst (All (IsLock setup)) e inv.locks).0 in cc

  -- Nothing has been closed while there is something to push.
  not_closed :
      (gs : ActionGroupStates) (rest : List ActionGroupStates)
      → h.to_push ≡ gs ∷ rest
      → h.closed ≢ true
  not_closed gs rest e c = let e' = inv.empty c in cc

  pub restarting_fine :
      (before after : List Worker) (gs : ActionGroupStates) (scope : Scope)
      → h.workers ≡ before ++ restarting gs scope ∷ after
      → HasNode setup scope
  restarting_fine before after gs scope at =
      All-middle (IsFine setup h.closed h.canceled) before after (restarting gs scope)
        (subst (All (IsFine setup h.closed h.canceled)) at inv.fine)

  no_node : (scope : Scope) → HasNode setup scope → get setup.nodes (get_node_id scope) ≢ none
  no_node scope (node, has) e = cc

  same_scope :
      (gs : ActionGroupStates) (s t : Scope)
      → gs.first_state.lock ≡ some s
      → gs.first_state.lock ≡ some t
      → HasNode setup s
      → HasNode setup t
  same_scope gs s t locked locked' has =
      subst (HasNode setup) (some-injective (sym locked ∙ locked')) has

  Move-Inv :
      {v w : Worker} {h' : Handler} (before after : List Worker)
      → h.workers ≡ before ++ v ∷ after
      → Move setup h v w h'
      → Inv setup groups nodes_inflight (record h' { workers = before ++ w ∷ after })
  Move-Inv before after at (take gs scope rest e locked) = record {
    counted = inv.counted;
    on = inv.on;
    empty = λ c. absurd (not_closed gs rest e c);
    fine = IsFine-after before after waiting (restarting gs scope) at (
        let (scope', locked', has) = (subst (All (IsLock setup)) e inv.locks).0 in
        same_scope gs scope' scope locked' locked has);
    locks = (subst (All (IsLock setup)) e inv.locks).1;
    staffed = staffed_after before after waiting (restarting gs scope) at;
  }
  Move-Inv before after at (take_other gs rest e other) = absurd (unlocked gs rest e other)
  Move-Inv before after at (see_closed c) = record {
    counted = inv.counted;
    on = inv.on;
    empty = inv.empty;
    fine = IsFine-after before after waiting ended at (λ going. c);
    locks = inv.locks;
    staffed = staffed_after before after waiting ended at;
  }
  Move-Inv before after at (see_canceled c) = record {
    counted = inv.counted;
    on = inv.on;
    empty = inv.empty;
    fine = IsFine-after before after waiting ended at (λ going. cc);
    locks = inv.locks;
    staffed = staffed_after before after waiting ended at;
  }
  Move-Inv before after at (send gs scope node fails known room) = record {
    counted = inv.counted;
    on = inv.on;
    empty = inv.empty;
    fine = IsFine-after before after (restarting gs scope) delaying at tt;
    locks = inv.locks;
    staffed = staffed_after before after (restarting gs scope) delaying at;
  }
  Move-Inv before after at (restart_nil gs scope e) =
      let p = restarting_fine before after gs scope at in absurd (no_node scope p e)
  Move-Inv before after at delay_over = record {
    counted = inv.counted;
    on = inv.on;
    empty = inv.empty;
    fine = IsFine-after before after delaying waiting at tt;
    locks = inv.locks;
    staffed = staffed_after before after delaying waiting at;
  }
  Move-Inv before after at (delay_canceled c) = record {
    counted = inv.counted;
    on = inv.on;
    empty = inv.empty;
    fine = IsFine-after before after delaying ended at (λ going. cc);
    locks = inv.locks;
    staffed = staffed_after before after delaying ended at;
  }

  pub Step-Inv : {h' : Handler} → Step setup h h' → Inv setup groups nodes_inflight h'
  Step-Inv (work before after at move) = Move-Inv before after at move
  Step-Inv (skip_push gs rest c e) = record {
    counted = inv.counted;
    on = inv.on;
    empty = λ c'. absurd (not_closed gs rest e c');
    fine = inv.fine;
    locks = (subst (All (IsLock setup)) e inv.locks).1;
    staffed = inv.staffed;
  }
  Step-Inv (close_queue e still) = record {
    counted = inv.counted;
    on = inv.on;
    empty = λ c. e;
    fine =
        IsFine-mono setup h.closed true h.canceled h.canceled h.workers (λ c. refl) (λ c. c)
          inv.fine;
    locks = inv.locks;
    staffed = inv.staffed;
  }
  Step-Inv (receive st rest n on more e) = record {
    counted = omega (arith, inv.counted, more, length-append h.received (st ∷ []));
    on = inv.on;
    empty = inv.empty;
    fine = inv.fine;
    locks = inv.locks;
    staffed = inv.staffed;
  }
  Step-Inv (stop_receiving c on) = record {
    counted = inv.counted;
    on = λ going. cc;
    empty = inv.empty;
    fine = inv.fine;
    locks = inv.locks;
    staffed = inv.staffed;
  }
  Step-Inv (cancel c) = record {
    counted = inv.counted;
    on = λ going. cc;
    empty = inv.empty;
    fine =
        IsFine-mono setup h.closed h.closed h.canceled true h.workers (λ x. x) (λ going. cc)
          inv.fine;
    locks = inv.locks;
    staffed = inv.staffed;
  }

pub Run-Inv :
    {setup : Setup} {groups : List ActionGroupStates} {nodes_inflight : ℕ} {h : Handler} {n : ℕ}
    {h' : Handler}
    → Inv setup groups nodes_inflight h
    → Run setup h n h'
    → Inv setup groups nodes_inflight h'
Run-Inv inv here = inv
Run-Inv inv (next run step) = Step-Inv (Run-Inv inv run) step

start-IsFine : (setup : Setup) (n : ℕ) → All (IsFine setup false false) (start_workers n)
start-IsFine setup zero = tt
start-IsFine setup (suc n) = (tt, start-IsFine setup n)

pub start-staffed : (n : ℕ) → length (start_workers n) ≡ n
start-staffed zero = refl
start-staffed (suc n) = ap suc (start-staffed n)

pub start-Inv :
    (setup : Setup) (groups : List ActionGroupStates) (nodes_inflight : ℕ)
    → All (IsLock setup) groups
    → Inv setup groups nodes_inflight (start_handler nodes_inflight groups)
start-Inv setup groups nodes_inflight locks = record {
  counted = omega arith;
  on = λ going. refl;
  empty = λ c. cc;
  fine = start-IsFine setup nodes_inflight;
  locks = locks;
  staffed = start-staffed nodes_inflight;
}
