-- ===== src/Cms/Tests.antt =====
-- A drop that CMS refuses, and the completion of the action of a node.
use ydbops.Base.{
  ℕ, ◌≡◌, refl, true, none, some, [], ◌∷◌, Memᴰ, arith, num_comparable, text_comparable,
}
use ydbops.Base.Text.{itoa}
use ydbops.Collections.{get, put}
use ydbops.Cluster.{ActionUid, ActionStatus, ActionGroupStates, by_node}
use ydbops.Hosts.{get_node_ids}
use ydbops.Hosts as Hosts
use ydbops.Hosts.NodeIds.{get_node_ids-itoa}
use ydbops.Retries.{Operation, another_status, answered, Code, GrpcStatus}
use ydbops.Cms.{
  Executed, executed, unsuccessful, unpacked, execute_maintenance_operation, found,
  actions_to_complete, index_actions, get_finished_actions,
}
use ydbops.Cms.Status.{failed_status_of_drop}
use ydbops.Cms.Finished.{IsNodeAction, actions_to_complete-node_ids}

abbrev code_errors : GrpcStatus Code
code_errors = record { code_of = λ code. some code; status_error = λ code message. code }

abbrev refused_operation : Operation ℕ
refused_operation = record { status = another_status 400010; result = 7 }

failed_status_of_drop_example :
    (◌≡◌ {A = Executed ℕ Code ℕ}
      (execute_maintenance_operation code_errors
        (some (λ n. unpacked n))
        (λ attempt. answered (some refused_operation)))
      (unsuccessful (another_status 400010)))
    × (◌≡◌ {A = Executed ℕ Code ℕ}
        (execute_maintenance_operation code_errors none
          (λ attempt. answered (some refused_operation)))
        (executed refused_operation none))
failed_status_of_drop_example =
    failed_status_of_drop code_errors (λ attempt. answered (some refused_operation))
      (λ attempt. Code.unavailable) 0 400010 7 (λ n. unpacked n) 7 (omega arith) tt refl refl

abbrev node_action : ActionGroupStates
node_action = record {
  first_state = record {
    action_uid = record { task_uid = "t"; group_id = "g"; action_id = "a" };
    lock = some (by_node 3);
    status = ActionStatus.performed;
  };
  other_states = [];
}

abbrev node_action_uid : ActionUid
node_action_uid = record { task_uid = "t"; group_id = "g"; action_id = "a" }

three_parsed : get_node_ids ("3" ∷ []) ≡ Hosts.ok (3 ∷ [])
unfolding itoa
three_parsed = get_node_ids-itoa (3 ∷ []) (omega arith, tt)

three_found :
    actions_to_complete (λ host. true) (node_action ∷ []) ("3" ∷ []) ≡ found (node_action_uid ∷ [])
unfolding actions_to_complete index_actions get_finished_actions get put
three_found = rw three_parsed refl

actions_to_complete-node_ids_example :
    (node_id : ℕ) × Memᴰ node_id (3 ∷ []) × IsNodeAction (node_action ∷ []) node_id node_action_uid
actions_to_complete-node_ids_example =
    actions_to_complete-node_ids (λ host. true) (node_action ∷ []) ("3" ∷ []) (3 ∷ [])
      (node_action_uid ∷ []) node_action_uid three_parsed three_found (Memᴰ.head refl)
