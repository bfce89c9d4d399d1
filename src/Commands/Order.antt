-- ===== src/Commands/Order.antt =====
-- cmd/restart/options.go and cmd/run/options.go: storage nodes come before tenant nodes, and an error ends
-- the command.
use ydbops.Base.{◌≡◌, refl, Bool, true, false, String, Option, none, some, List, [], ◌∷◌}
use ydbops.Restarters.{Restarter, run, set_storage_only, set_dynnode_only}
use ydbops.Commands.{prepare_restarters, run_tenant_after, run_in_order, restart_run, payload_run}

-- The restarters that the flags ask for: with no flag both.
abbrev pub wanted : Bool → Bool → Restarter → Restarter → List Restarter
wanted true true storage_restarter tenant_restarter = storage_restarter ∷ tenant_restarter ∷ []
wanted true false storage_restarter tenant_restarter = storage_restarter ∷ []
wanted false true storage_restarter tenant_restarter = tenant_restarter ∷ []
wanted false false storage_restarter tenant_restarter = storage_restarter ∷ tenant_restarter ∷ []

-- Some were run, each of them with no error but perhaps the last, which then ended the command.
pub data IsRunOf {ℓ} {Error : Type ℓ} (execute : Restarter → Option Error)
    : List Restarter → List Restarter × Option Error → Type ℓ where
  all_run : IsRunOf execute [] ([], none)
  one_run :
      {r : Restarter} {rest : List Restarter} {runs : List Restarter} {err : Option Error}
      → execute r ≡ none
      → IsRunOf execute rest (runs, err)
      → IsRunOf execute (r ∷ rest) (r ∷ runs, err)
  one_failed :
      {r : Restarter} {rest : List Restarter} {err : Error}
      → execute r ≡ some err
      → IsRunOf execute (r ∷ rest) (r ∷ [], some err)

module _ {ℓ} {Error : Type ℓ} (execute : Restarter → Option Error) where
  one-IsRunOf :
      (r : Restarter) (result : Option Error)
      → execute r ≡ result
      → IsRunOf execute (r ∷ []) (r ∷ [], result)
  one-IsRunOf r none e = one_run e all_run
  one-IsRunOf r (some err) e = one_failed e

  two-IsRunOf :
      (r q : Restarter) (result : Option Error)
      → execute r ≡ result
      → IsRunOf execute (r ∷ q ∷ []) (run_tenant_after execute r result true q)
  two-IsRunOf r q none e = one_run e (one-IsRunOf q (execute q) refl)
  two-IsRunOf r q (some err) e = one_failed e

  first-IsRunOf :
      (r q : Restarter) (result : Option Error)
      → execute r ≡ result
      → IsRunOf execute (r ∷ []) (run_tenant_after execute r result false q)
  first-IsRunOf r q none e = one_run e all_run
  first-IsRunOf r q (some err) e = one_failed e

  run_in_order-IsRunOf :
      (storage tenant : Bool) (r q : Restarter)
      → IsRunOf execute (wanted storage tenant r q) (run_in_order execute storage tenant r q)
  unfolding run_in_order
  run_in_order-IsRunOf true true r q = two-IsRunOf r q (execute r) refl
  run_in_order-IsRunOf true false r q = first-IsRunOf r q (execute r) refl
  run_in_order-IsRunOf false true r q = one-IsRunOf q (execute q) refl
  run_in_order-IsRunOf false false r q = two-IsRunOf r q (execute r) refl

  -- `restart` and `run` go through the restarters that their flags ask for, storage nodes before tenant
  -- nodes and both where no flag is given; the first error ends the command and is its error, so that no
  -- tenant node is restarted after an error of the storage nodes.
  pub commands-IsRunOf :
      (storage tenant : Bool) (kubeconfig_path : String) (ssh_args : List String) (unit : String)
      → let (storage_restarter, tenant_restarter) =
          prepare_restarters kubeconfig_path ssh_args unit in
        IsRunOf execute
          (wanted storage tenant storage_restarter tenant_restarter)
          (restart_run execute storage tenant kubeconfig_path ssh_args unit)
        × IsRunOf execute
            (wanted storage tenant (run true false) (run false true))
            (payload_run execute storage tenant)
  unfolding restart_run payload_run set_storage_only set_dynnode_only
  commands-IsRunOf storage tenant kubeconfig_path ssh_args unit =
      let (storage_restarter, tenant_restarter) =
        prepare_restarters kubeconfig_path ssh_args unit in
      (
        run_in_order-IsRunOf storage tenant storage_restarter tenant_restarter,
        run_in_order-IsRunOf storage tenant (run true false) (run false true),
      )
