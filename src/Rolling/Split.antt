-- ===== src/Rolling/Split.antt =====
-- The loop of `processActionGroupStates` over the performed groups: which are reported again and
-- which are restarted, and that it does not panic on the nodes of the restart.
use mathlib.Core.List.{append_assoc, append-nil}
use ydbops.Base.{
  ◌≡◌, refl, ◌∙◌, ap, sym, true, false, not, some, List, [], ◌∷◌, ◌++◌, map, Bool-cases, inl, inr,
  All,
}
use ydbops.Collections.{filter_by}
use ydbops.Cluster.{Node, ActionUid, ActionGroupStates, Scope}
use ydbops.Rolling.State.{State}
use ydbops.Rolling.Actions.{
  ok, ◌>>=◌, uid_of, id_of, node_of, has_action_in_unreported, split_finished,
}

-- The groups that are finished already, and those that are not.
abbrev pub finished_before : State → List ActionGroupStates → List ActionGroupStates
finished_before r performed = filter_by performed (λ gs. has_action_in_unreported r (id_of gs))

abbrev pub to_restart : State → List ActionGroupStates → List ActionGroupStates
to_restart r performed = filter_by performed (λ gs. not (has_action_in_unreported r (id_of gs)))

abbrev pub with_reported : State → List ActionUid → State
with_reported r uids = record r { completed_actions = r.completed_actions ++ uids }

-- A group whose action locks a node that the state knows.
abbrev pub IsKnown : State → ActionGroupStates → Type 0
IsKnown r gs =
    (scope : Scope) × (gs.first_state.lock ≡ some scope)
    × ((node : Node) × (node_of r scope ≡ some node))

split_step_old :
    (r : State) (gs : ActionGroupStates) (performed : List ActionGroupStates)
    → IsKnown r gs
    → has_action_in_unreported r (id_of gs) ≡ true
    → split_finished r (gs ∷ performed)
      ≡ split_finished (with_reported r (uid_of gs ∷ [])) performed
unfolding split_finished
split_step_old r gs performed (scope, locked, (node, known)) old = rw (locked, old, known)

split_step_new :
    (r : State) (gs : ActionGroupStates) (performed : List ActionGroupStates)
    → IsKnown r gs
    → has_action_in_unreported r (id_of gs) ≡ false
    → split_finished r (gs ∷ performed)
      ≡ (split_finished r performed >>= λ (r', filtered). ok (r', gs ∷ filtered))
unfolding split_finished
split_step_new r gs performed (scope, locked, (node, known)) new = rw (locked, new)

-- On known nodes the loop ends without a panic: it reports again what is finished, in order, hands on
-- the rest, in order, and changes nothing else.
pub split_finished_lem :
    (r : State) (performed : List ActionGroupStates)
    → All (IsKnown r) performed
    → split_finished r performed
      ≡ ok (with_reported r (map uid_of (finished_before r performed)), to_restart r performed)
unfolding split_finished filter_by has_action_in_unreported
split_finished_lem r [] h =
    ap (λ c. ok (record r { completed_actions = c }, [])) (sym (append-nil _))
split_finished_lem r (gs ∷ performed) (known, h) =
    elim (Bool-cases (has_action_in_unreported r (id_of gs))) [
      | inl old ↦
          split_step_old r gs performed known old
          ∙ (split_finished_lem (with_reported r (uid_of gs ∷ [])) performed h
              ∙ (rw (old, append_assoc r.completed_actions (uid_of gs ∷ [])) refl))
      | inr new ↦
          split_step_new r gs performed known new
          ∙ (rw (split_finished_lem r performed h, new) refl)
    ]
