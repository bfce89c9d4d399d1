-- ===== src/Rolling/Tenants.antt =====
-- rolling.go: `dispatchByTenant`, whose handlers run side by side as far as its semaphore allows and send
-- to one channel, as steps in any order over the steps of restart_handler.go.
pub mod Limit
pub mod Conserved
mod Tests
use ydbops.Base.{ℕ, zero, suc, ◌+◌, ◌<◌, ◌≡◌, Bool, true, false, List, [], ◌∷◌, ◌++◌, length}
use ydbops.Cluster.{ActionGroupStates}
use ydbops.Rolling.State.{RestartStatus}
use ydbops.Rolling.Handler.{Setup, Worker, Handler, start_workers, Step, all_ended}

-- The handler of one tenant, but for what the handlers share.
pub record TenantHandler : Type 0 where
  pub workers : List Worker
  pub to_push : List ActionGroupStates
  pub closed : Bool

-- `handlers` are those that hold a place in the semaphore, `over` those whose goroutines have returned and
-- given their places back.
pub record Tenants : Type 0 where
  pub tenants_left : List (List ActionGroupStates)
  pub handlers : List TenantHandler
  pub over : List TenantHandler
  pub status_ch : List RestartStatus
  pub received : List RestartStatus
  pub expected : ℕ
  pub receiving : Bool
  pub canceled : Bool

abbrev pub start_tenant : ℕ → List ActionGroupStates → TenantHandler
start_tenant nodes_inflight groups = record {
  workers = start_workers nodes_inflight;
  to_push = groups;
  closed = false;
}

abbrev pub group_total : List (List ActionGroupStates) → ℕ
group_total [] = 0
group_total (groups ∷ tenants) = length groups + group_total tenants

abbrev pub start_tenants : List (List ActionGroupStates) → Tenants
start_tenants tenants = record {
  tenants_left = tenants;
  handlers = [];
  over = [];
  status_ch = [];
  received = [];
  expected = group_total tenants;
  receiving = true;
  canceled = false;
}

-- A handler with the channel, the statuses and the context that it shares with the others.
abbrev pub view : Tenants → TenantHandler → Handler
view d t = record {
  workers = t.workers;
  to_push = t.to_push;
  closed = t.closed;
  status_ch = d.status_ch;
  received = d.received;
  expected = d.expected;
  receiving = d.receiving;
  canceled = d.canceled;
}

abbrev pub own_part : Handler → TenantHandler
own_part h = record { workers = h.workers; to_push = h.to_push; closed = h.closed }

abbrev pub with_shared : Tenants → Handler → List TenantHandler → Tenants
with_shared d h handlers = record d {
  handlers = handlers;
  status_ch = h.status_ch;
  received = h.received;
  expected = h.expected;
  receiving = h.receiving;
  canceled = h.canceled;
}

-- A handler that is over, in whose place only `handleRestartStatus` and the context can step.
abbrev pub no_handler : TenantHandler
no_handler = record { workers = []; to_push = []; closed = true }

pub data TenantStep (nodes_inflight tenants_inflight : ℕ) (setup : Setup) (d : Tenants)
    : Tenants → Type 0 where
  begin :
      (groups : List ActionGroupStates) (rest : List (List ActionGroupStates))
      → d.tenants_left ≡ groups ∷ rest
      → length d.handlers < tenants_inflight
      → TenantStep nodes_inflight tenants_inflight setup d (record d {
        tenants_left = rest;
        handlers = start_tenant nodes_inflight groups ∷ d.handlers;
      })
  give_up :
      d.canceled ≡ true
      → TenantStep nodes_inflight tenants_inflight setup d (record d { tenants_left = [] })
  handle :
      {t : TenantHandler} {h : Handler} (before after : List TenantHandler)
      → d.handlers ≡ before ++ t ∷ after
      → Step setup (view d t) h
      → TenantStep nodes_inflight tenants_inflight setup d
          (with_shared d h (before ++ own_part h ∷ after))
  between :
      {h : Handler}
      → Step setup (view d no_handler) h
      → TenantStep nodes_inflight tenants_inflight setup d (with_shared d h d.handlers)
  finish :
      (t : TenantHandler) (before after : List TenantHandler)
      → d.handlers ≡ before ++ t ∷ after
      → all_ended t.workers ≡ true
      → t.closed ≡ true
      → TenantStep nodes_inflight tenants_inflight setup d
          (record d { handlers = before ++ after; over = t ∷ d.over })

pub data TenantRun (nodes_inflight tenants_inflight : ℕ) (setup : Setup) (d : Tenants)
    : Tenants → Type 0 where
  here : TenantRun nodes_inflight tenants_inflight setup d d
  next :
      {e f : Tenants}
      → TenantRun nodes_inflight tenants_inflight setup d e
      → TenantStep nodes_inflight tenants_inflight setup e f
      → TenantRun nodes_inflight tenants_inflight setup d f
