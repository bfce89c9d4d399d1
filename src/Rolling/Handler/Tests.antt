-- ===== src/Rolling/Handler/Tests.antt =====
-- A handler of one worker on two groups, from its start to its end.
use ydbops.Base.{
  ℕ, ◌+◌, ◌*◌, ◌≤◌, ◌≡◌, ◌⊎◌, refl, true, false, some, List, [], ◌∷◌, length, arith, All, Memᴰ,
  num_comparable,
}
use ydbops.Cluster.{ActionUid, by_node}
use ydbops.Rolling.State.{RestartStatus}
use ydbops.Rolling.Actions.{uid_of}
use ydbops.Rolling.Pass.{uids}
use ydbops.Collections.{get}
use ydbops.Rolling.Tests.{group_at, known_node, two_node_state, two_groups}
use ydbops.Rolling.Handler.{
  Setup, delaying, ended, Handler, start_handler, status_for, Step, take, send, delay_over,
  see_closed, work, close_queue, receive, Run, here, next, all_ended,
}
use ydbops.Rolling.Handler.Weights.{groups_weight, statuses_weight}
use ydbops.Rolling.Handler.Conserved.{handler_weight, handler_weight_lem}
use ydbops.Rolling.Handler.Bounded.{Run-bounded}
use ydbops.Rolling.Handler.Kept.{IsLock}
use ydbops.Rolling.Handler.Progress.{Run-progress}
use ydbops.Rolling.Handler.Refines.{IsFinished, occurs, finished_received}

abbrev two_statuses : List RestartStatus
two_statuses =
    status_for (group_at 1 "a") (by_node 1) false
    ∷ status_for (group_at 2 "b") (by_node 2) false
    ∷ []

-- The second status is sent, and is not received yet.
abbrev halfway : Handler
halfway = record {
  workers = delaying ∷ [];
  to_push = [];
  closed = false;
  status_ch = status_for (group_at 2 "b") (by_node 2) false ∷ [];
  received = status_for (group_at 1 "a") (by_node 1) false ∷ [];
  expected = 1;
  receiving = true;
  canceled = false;
}

abbrev at_end : Handler
at_end = record {
  workers = ended ∷ [];
  to_push = [];
  closed = true;
  status_ch = [];
  received = two_statuses;
  expected = 0;
  receiving = true;
  canceled = false;
}

abbrev two_setup : Setup
two_setup = record { capacity = 1; nodes = two_node_state.nodes }

first_known : get two_setup.nodes 1 ≡ some (known_node 1 (some "/root/a"))
unfolding get
first_known = refl

second_known : get two_setup.nodes 2 ≡ some (known_node 2 (some "/root/b"))
unfolding get
second_known = refl

first_half : Run two_setup (start_handler 1 two_groups) 6 halfway
first_half =
    next
      (next
        (next
          (next
            (next
              (next here (
                work [] [] refl
                  (take (group_at 1 "a") (by_node 1) (group_at 2 "b" ∷ []) refl refl)))
              (work [] [] refl
                (send (group_at 1 "a") (by_node 1) _ false first_known (omega arith))))
            (receive _ [] 1 refl refl refl))
          (work [] [] refl delay_over))
        (work [] [] refl (take (group_at 2 "b") (by_node 2) [] refl refl)))
      (work [] [] refl (send (group_at 2 "b") (by_node 2) _ false second_known (omega arith)))

whole : Run two_setup (start_handler 1 two_groups) 10 at_end
whole =
    next
      (next (next (next first_half (receive _ [] 0 refl refl refl)) (close_queue refl refl))
        (work [] [] refl delay_over))
      (work [] [] refl (see_closed refl))

two_locks : All (IsLock two_setup) two_groups
two_locks = ((by_node 1, refl, (_, first_known)), ((by_node 2, refl, (_, second_known)), tt))

whole-IsFinished : IsFinished at_end
whole-IsFinished = record { going = refl; over = refl; complete = refl }

handler_weight_lem_example :
    (handler_weight (occurs (uid_of (group_at 2 "b"))) halfway
      ≤ groups_weight (occurs (uid_of (group_at 2 "b"))) two_groups)
    × (halfway.canceled ≡ false
        → handler_weight (occurs (uid_of (group_at 2 "b"))) halfway
          ≡ groups_weight (occurs (uid_of (group_at 2 "b"))) two_groups)
handler_weight_lem_example =
    handler_weight_lem (occurs (uid_of (group_at 2 "b"))) two_setup 1 6 two_groups halfway
      first_half

Run-bounded_example : 10 ≤ 5 * length two_groups + 1 + 3
Run-bounded_example = Run-bounded two_setup 1 10 two_groups at_end whole

Run-progress_example :
    ((all_ended halfway.workers ≡ true) × (halfway.expected ≡ 0))
    ⊎ ((h' : Handler) × Step two_setup halfway h' × (h'.canceled ≡ false))
Run-progress_example =
    Run-progress two_setup 1 6 two_groups halfway two_locks (omega arith) (omega arith) first_half
      refl

finished_received_example :
    (length two_statuses ≡ 2)
    × ((f : ActionUid → ℕ) → statuses_weight f two_statuses ≡ groups_weight f two_groups)
    × All (λ gs. Memᴰ (uid_of gs) (uids two_statuses)) two_groups
finished_received_example =
    finished_received two_setup 1 10 two_groups at_end two_locks whole whole-IsFinished
