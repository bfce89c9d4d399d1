-- ===== src/Cluster.antt =====
-- The messages of the maintenance service that the program reads, as far as it reads them:
-- `Ydb_Maintenance.Node`, `ActionUid`, `ActionScope`, `ActionState`, `ActionGroupStates`, and
-- protobuf timestamps.
use ydbops.Base.{ℕ, ◌*◌, String, Option, none, some, List, Bool, true, false}

-- An instant in nanoseconds since 0001-01-01T00:00:00Z, the zero `time.Time`.
abbrev pub Instant : Type 0
Instant = ℕ

-- 1970-01-01T00:00:00Z
abbrev pub unix_epoch : Instant
unix_epoch = 62135596800 * 1000000000

-- `(*timestamppb.Timestamp).AsTime`: a nil message is read as zero seconds since the Unix epoch.
abbrev pub as_time : Option Instant → Instant
as_time none = unix_epoch
as_time (some t) = t

pub data ItemState : Type 0 where
  unspecified up maintenance down : ItemState

abbrev pub is_up : ItemState → Bool
is_up up = true
is_up _ = false

-- `has_storage` is `GetStorage() != nil`, `dynamic` the tenant of `GetDynamic()`, and
-- `data_center` is `GetLocation().GetDataCenter()`, empty where there is no location.
pub record Node : Type 0 where
  pub node_id : ℕ
  pub host : String
  pub port : ℕ
  pub version : String
  pub data_center : String
  pub has_storage : Bool
  pub dynamic : Option String
  pub start_time : Option Instant
  pub item_state : ItemState

pub record ActionUid : Type 0 where
  pub task_uid : String
  pub group_id : String
  pub action_id : String

-- The `oneof` of `ActionScope`.
pub data Scope : Type 0 where
  by_node : ℕ → Scope
  by_host : String → Scope
  no_scope : Scope

abbrev pub get_node_id : Scope → ℕ
get_node_id (by_node id) = id
get_node_id _ = 0

abbrev pub get_host : Scope → String
get_host (by_host host) = host
get_host _ = ""

pub data ActionStatus : Type 0 where
  unspecified created pending performed : ActionStatus

abbrev pub is_performed : ActionStatus → Bool
is_performed performed = true
is_performed _ = false

-- `lock` is the scope of `GetLockAction()`, none for an action of another kind.
pub record ActionState : Type 0 where
  pub action_uid : ActionUid
  pub lock : Option Scope
  pub status : ActionStatus

-- A group holds one action or more: the program indexes the first with no test, and every group
-- that it creates has one.
pub record ActionGroupStates : Type 0 where
  pub first_state : ActionState
  pub other_states : List ActionState
