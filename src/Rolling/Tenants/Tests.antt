-- ===== src/Rolling/Tenants/Tests.antt =====
-- Two tenants, side by side.
use ydbops.Base.{◌+◌, ◌*◌, ◌≤◌, ◌≡◌, refl, false, List, [], ◌∷◌, arith, All}
use ydbops.Cluster.{ActionGroupStates, by_node}
use ydbops.Rolling.Tests.{group_at}
use ydbops.Rolling.Handler.{Setup, restarting, take, work}
use ydbops.Rolling.Tenants.{Tenants, start_tenants, begin, handle, TenantRun, here, next}
use ydbops.Rolling.Actions.{uid_of}
use ydbops.Rolling.Handler.Refines.{occurs}
use ydbops.Rolling.Tenants.Conserved.{tenants_weight, given_weight, TenantRun-weight}
use ydbops.Rolling.Tenants.Limit.{restarts_now, TenantRun-limit}

abbrev two_tenants : List (List ActionGroupStates)
two_tenants = (group_at 1 "a" ∷ []) ∷ (group_at 2 "b" ∷ []) ∷ []

-- One node of each is in a restart.
abbrev side_by_side : Tenants
side_by_side = record (start_tenants two_tenants) {
  tenants_left = [];
  handlers =
      record {
        workers = restarting (group_at 2 "b") (by_node 2) ∷ [];
        to_push = [];
        closed = false;
      }
      ∷ record {
        workers = restarting (group_at 1 "a") (by_node 1) ∷ [];
        to_push = [];
        closed = false;
      }
      ∷ [];
}

abbrev no_nodes : Setup
no_nodes = record { capacity = 2; nodes = [] }

both_started : TenantRun 1 2 no_nodes (start_tenants two_tenants) side_by_side
both_started =
    next
      (next
        (next
          (next here (begin (group_at 1 "a" ∷ []) ((group_at 2 "b" ∷ []) ∷ []) refl (omega arith)))
          (begin (group_at 2 "b" ∷ []) [] refl (omega arith)))
        (handle [] (_ ∷ []) refl
          (work [] [] refl (take (group_at 2 "b") (by_node 2) [] refl refl))))
      (handle (_ ∷ []) [] refl (work [] [] refl (take (group_at 1 "a") (by_node 1) [] refl refl)))

TenantRun-limit_example :
    All (λ t. restarts_now t.workers ≤ 1) side_by_side.handlers
    × All (λ t. restarts_now t.workers ≤ 1) side_by_side.over
    × (2 + 0 ≤ 1 * 2)
TenantRun-limit_example = TenantRun-limit 1 2 no_nodes two_tenants side_by_side both_started

TenantRun-weight_example :
    (tenants_weight (occurs (uid_of (group_at 2 "b"))) side_by_side
      ≤ given_weight (occurs (uid_of (group_at 2 "b"))) two_tenants)
    × (side_by_side.canceled ≡ false
        → tenants_weight (occurs (uid_of (group_at 2 "b"))) side_by_side
          ≡ given_weight (occurs (uid_of (group_at 2 "b"))) two_tenants)
TenantRun-weight_example =
    TenantRun-weight (occurs (uid_of (group_at 2 "b"))) 1 2 no_nodes two_tenants side_by_side
      both_started
