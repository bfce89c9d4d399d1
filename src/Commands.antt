-- ===== src/Commands.antt =====
-- cmd/restart/options.go and cmd/run/options.go: which restarters run, in which order, and the payload of
-- `run`. The executer of a restarter is a parameter, `none` for no error.
pub mod Maintenance
pub mod Order
mod Tests
use ydbops.Base.{
  ℕ, ◌/◌, ◌%◌, String, Bool, true, false, not, ◌&&◌, ◌||◌, Option, none, some, List, [], ◌∷◌, ◌==◌,
  if◌then◌else◌, num_comparable, text_comparable,
}
use ydbops.Restarters.{
  Restarter, storage_ssh, tenant_ssh, storage_k8s, tenant_k8s, run, set_storage_only,
  set_dynnode_only,
}

-- The restarter of storage nodes and that of tenant nodes.
unfoldable pub prepare_restarters : String → List String → String → Restarter × Restarter
prepare_restarters kubeconfig_path ssh_args custom_systemd_unit_name =
    if not (kubeconfig_path == "") then (storage_k8s [], tenant_k8s []) else (
      storage_ssh custom_systemd_unit_name ssh_args,
      tenant_ssh custom_systemd_unit_name ssh_args,
    )

module _ {ℓ} {Error : Type ℓ} (execute : Restarter → Option Error) where
  abbrev pub run_tenant : Bool → Restarter → List Restarter × Option Error
  run_tenant wanted tenant_restarter =
      if wanted then (tenant_restarter ∷ [], execute tenant_restarter) else ([], none)

  -- The tenant nodes come after the storage nodes, and only where these had no error.
  abbrev pub run_tenant_after :
      Restarter → Option Error → Bool → Restarter → List Restarter × Option Error
  run_tenant_after storage_restarter (some err) wanted tenant_restarter =
      (storage_restarter ∷ [], some err)
  run_tenant_after storage_restarter none wanted tenant_restarter =
      let (runs, err) = run_tenant wanted tenant_restarter in (storage_restarter ∷ runs, err)

  unfoldable pub run_in_order : Bool → Bool → Restarter → Restarter → List Restarter × Option Error
  run_in_order storage tenant storage_restarter tenant_restarter =
      let both_unspecified = not storage && not tenant in
      if storage || both_unspecified
      then run_tenant_after storage_restarter (execute storage_restarter)
          (tenant || both_unspecified) tenant_restarter
      else run_tenant (tenant || both_unspecified) tenant_restarter

  -- `Run` of `restart`: the restarters that were run, in order, and the error.
  unfoldable pub restart_run :
      Bool → Bool → String → List String → String → List Restarter × Option Error
  restart_run storage tenant kubeconfig_path ssh_args custom_systemd_unit_name =
      let (storage_restarter, tenant_restarter) =
        prepare_restarters kubeconfig_path ssh_args custom_systemd_unit_name in
      run_in_order storage tenant storage_restarter tenant_restarter

  -- `Run` of `run`: one restarter, set for storage nodes and then for tenant nodes.
  unfoldable pub payload_run : Bool → Bool → List Restarter × Option Error
  payload_run storage tenant =
      run_in_order storage tenant (set_storage_only (run false false))
        (set_dynnode_only (run false false))

-- `os.Stat`: the permission bits, or an error.
pub data Stat : Type 0 where
  file_mode : ℕ → Stat
  no_such_file : Stat
  not_readable : Stat

pub data PayloadCheck : Type 0 where
  executable no_payload payload_missing not_executable : PayloadCheck
  nil_file_info : PayloadCheck

-- Bit 0100 of the mode.
abbrev pub owner_executes : ℕ → Bool
owner_executes mode = (mode / 64) % 2 == 1

abbrev pub check_mode : Stat → PayloadCheck
check_mode no_such_file = payload_missing
check_mode not_readable = nil_file_info
check_mode (file_mode mode) = if owner_executes mode then executable else not_executable

-- The part of `Validate` of `run` behind that of its restart options.
unfoldable pub check_payload : (String → Stat) → String → PayloadCheck
check_payload stat payload_file_path =
    if payload_file_path == "" then no_payload else check_mode (stat payload_file_path)
