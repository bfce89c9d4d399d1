-- ===== src/Cms/Status.antt =====
-- `executeMaintenanceOperation` of pkg/client/cms/cms.go: whether the status of an operation counts.
use ydbops.Base.{ℕ, ◌<◌, ◌≡◌, refl, none, some}
use ydbops.Retries.{GrpcStatus, Reply, answered, Operation, another_status, returned, judge}
use ydbops.Retries.Deciding.{Transient, retries_end}
use ydbops.Cms.{Executed, executed, unsuccessful, Unpacked, unpacked, execute_maintenance_operation}

module _ {ℓ κ ι} {Packed : Type ℓ} {Error : Type κ} {Out : Type ι} (grpc : GrpcStatus Error)
    (replies : ℕ → Reply Packed Error) (errors : ℕ → Error) where
  -- An operation that the service answers within the five attempts, the earlier ones failing in a way
  -- that may pass, with a status that is neither success nor UNAVAILABLE: with a result to unpack the
  -- call is an error, and with none, as when a task is dropped, it is a success.
  pub failed_status_of_drop :
      (k n : ℕ) (result : Packed) (unpack : Packed → Unpacked Error Out) (out : Out)
      → k < 5
      → Transient grpc 5 replies errors 0 k
      → replies k ≡ answered (some (record { status = another_status n; result = result }))
      → unpack result ≡ unpacked out
      → (◌≡◌ {A = Executed Packed Error Out}
          (execute_maintenance_operation grpc (some unpack) replies)
          (unsuccessful (another_status n)))
        × (◌≡◌ {A = Executed Packed Error Out}
            (execute_maintenance_operation grpc none replies)
            (executed (record { status = another_status n; result = result }) none))
  unfolding execute_maintenance_operation judge
  failed_status_of_drop k n result unpack out h fails reply unpacks =
      let op : Operation Packed = record { status = another_status n; result = result } in
      let e = retries_end grpc 5 replies errors k (returned op) h fails (rw reply refl) in
      (rw (e, unpacks) refl, rw e refl)
