-- ===== src/Cms.antt =====
-- pkg/client/cms: cms.go and maintenance.go. The services, the unpacking of a result and the parsing of
-- URLs are parameters; connections, contexts and log lines are left out.
pub mod Status
pub mod Finished
pub mod Client
pub mod Tasks
mod Tests
mod ClientTests
use ydbops.Base.{
  ℕ, String, Bool, true, false, Option, none, some, List, [], ◌∷◌, ◌==◌, not, if◌then◌else◌,
  num_comparable, text_comparable, Comparable,
}
use ydbops.Base.Int.{ℤ}
use ydbops.Collections.{get, put}
use ydbops.Cluster.{
  Node, ActionUid, ActionGroupStates, Scope, by_node, by_host, get_node_id, get_host,
}
use ydbops.Hosts.{NodeIdError, get_node_ids, get_node_fqdns}
use ydbops.Hosts as Hosts
use ydbops.Retries.{
  GrpcStatus, Reply, Operation, StatusCode, success, another_status, unavailable, Retried, returned,
  refused, exceeded, panicked, wrap_with_retries,
}

-- How an operation ends.
pub data Executed {ℓ κ ι} (Packed : Type ℓ) (Error : Type κ) (Out : Type ι) : Type (ℓ ⊔ κ ⊔ ι) where
  executed : Operation Packed → Option Out → Executed Packed Error Out
  not_called : Error → Executed Packed Error Out
  retries_exceeded : ℕ → Option Error → Executed Packed Error Out
  bad_result : Error → Executed Packed Error Out
  unsuccessful : StatusCode → Executed Packed Error Out
  crashed : Executed Packed Error Out

-- `UnmarshalTo(out)`
pub data Unpacked {κ ι} (Error : Type κ) (Out : Type ι) : Type (κ ⊔ ι) where
  unpacked : Out → Unpacked Error Out
  malformed : Error → Unpacked Error Out

abbrev pub is_success : StatusCode → Bool
is_success success = true
is_success _ = false

module _ {ℓ κ ι} {Packed : Type ℓ} {Error : Type κ} {Out : Type ι} where
  abbrev pub check_status : Operation Packed → Unpacked Error Out → Executed Packed Error Out
  check_status op (malformed err) = bad_result err
  check_status op (unpacked out) =
      if is_success op.status then executed op (some out) else unsuccessful op.status

  -- `out == nil` is `none`.
  abbrev pub unpack_operation :
      Option (Packed → Unpacked Error Out) → Retried Packed Error → Executed Packed Error Out
  unpack_operation out (refused err) = not_called err
  unpack_operation out (exceeded n err) = retries_exceeded n err
  unpack_operation out panicked = crashed
  unpack_operation none (returned op) = executed op none
  unpack_operation (some unpack) (returned op) = check_status op (unpack op.result)

  unfoldable pub execute_maintenance_operation :
      GrpcStatus Error
      → Option (Packed → Unpacked Error Out)
      → (ℕ → Reply Packed Error)
      → Executed Packed Error Out
  execute_maintenance_operation grpc out replies =
      let (result, delays) = wrap_with_retries grpc 5 replies in unpack_operation out result

-- `ActionGroup` with one lock action.
pub record LockAction : Type 0 where
  pub scope : Scope
  pub duration : ℤ

abbrev wrap_single_scope_in_action_group : Scope → ℤ → LockAction
wrap_single_scope_in_action_group scope duration = record { scope = scope; duration = duration }

unfoldable pub action_groups_from_nodes : ℤ → List Node → List LockAction
action_groups_from_nodes duration [] = []
action_groups_from_nodes duration (node ∷ nodes) =
    wrap_single_scope_in_action_group (by_node node.node_id) duration
    ∷ action_groups_from_nodes duration nodes

unfoldable pub action_groups_from_hosts : ℤ → List String → List LockAction
action_groups_from_hosts duration [] = []
action_groups_from_hosts duration (host ∷ hosts) =
    wrap_single_scope_in_action_group (by_host host) duration
    ∷ action_groups_from_hosts duration hosts

-- The errors of `CompleteActions`.
pub data CompleteError : Type 0 where
  hosts_not_parsed not_a_lock no_host_or_node not_found : CompleteError

pub data Found {ℓ} (A : Type ℓ) : Type ℓ where
  found : A → Found A
  missing : CompleteError → Found A

infixl 5 ◌>>=◌
abbrev pub ◌>>=◌ {ℓ κ} : {A : Type ℓ} {B : Type κ} → Found A → (A → Found B) → Found B
found a >>= f = f a
missing err >>= f = missing err

-- `hostFQDNToActionUID` and `nodeIDToActionUID`
pub record Index : Type 0 where
  pub by_fqdn : List (String × ActionUid)
  pub by_id : List (ℕ × ActionUid)

abbrev pub index_scope : Index → ActionUid → Option Scope → Found Index
index_scope index uid none = missing not_a_lock
index_scope index uid (some scope) =
    if not (get_host scope == "")
    then found (record index { by_fqdn = put index.by_fqdn (get_host scope) uid })
    else if not (get_node_id scope == 0)
    then found (record index { by_id = put index.by_id (get_node_id scope) uid })
    else missing no_host_or_node

unfoldable pub index_actions : Index → List ActionGroupStates → Found Index
index_actions index [] = found index
index_actions index (gs ∷ groups) =
    index_scope index gs.first_state.action_uid gs.first_state.lock >>= λ index'.
    index_actions index' groups

abbrev pub or_not_found {ℓ} : {A : Type ℓ} → Option A → Found A
or_not_found none = missing not_found
or_not_found (some a) = found a

module _ {ℓ} {K : Type ℓ} ⦃c : Comparable K⦄ where
  unfoldable pub get_finished_actions : List K → List (K × ActionUid) → Found (List ActionUid)
  get_finished_actions [] uids = found []
  get_finished_actions (node ∷ nodes) uids = do
    uid ← or_not_found (get uids node)
    rest ← get_finished_actions nodes uids
    found (uid ∷ rest)

abbrev pub finished_by :
    Hosts.Result (List ℕ) → Option (List String) → Index → Found (List ActionUid)
finished_by (Hosts.ok node_ids) host_fqdns index = get_finished_actions node_ids index.by_id
finished_by (Hosts.err e) (some host_fqdns) index = get_finished_actions host_fqdns index.by_fqdn
finished_by (Hosts.err e) none index = missing hosts_not_parsed

abbrev pub is_parsed : Hosts.Result (List ℕ) → Option (List String) → Bool
is_parsed (Hosts.err e) none = false
is_parsed _ _ = true

-- `CompleteActions` on the groups of the task: the actions that it reports to CMS, or its error before
-- it reports anything.
unfoldable pub actions_to_complete :
    (String → Bool) → List ActionGroupStates → List String → Found (List ActionUid)
actions_to_complete url_parses groups hosts =
    let node_ids = get_node_ids hosts in
    let host_fqdns = get_node_fqdns url_parses hosts in
    if is_parsed node_ids host_fqdns
    then (index_actions (record { by_fqdn = []; by_id = [] }) groups >>= λ index.
        finished_by node_ids host_fqdns index)
    else missing hosts_not_parsed
