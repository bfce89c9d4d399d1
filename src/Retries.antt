-- ===== src/Retries.antt =====
-- pkg/utils/retries.go: the retries of a call of a service. gRPC's status package is a parameter, and
-- so are the replies, by the number of the attempt.
pub mod Deciding
pub mod Attempts
mod Tests
use ydbops.Base.{
  ℕ, zero, suc, ◌+◌, ◌*◌, ◌-◌, ◌^◌, String, Bool, true, false, Option, none, some, List, [], ◌∷◌,
  ltb, if◌then◌else◌,
}
use ydbops.Base.Int.{ℤ, pos, wrap_all}

-- `codes.Code`
pub data Code : Type 0 where
  unavailable : Code
  another_code : ℕ → Code

-- `Ydb.StatusIds_StatusCode`
pub data StatusCode : Type 0 where
  success unavailable : StatusCode
  another_status : ℕ → StatusCode

-- `Ydb_Operations.Operation`, with its result as packed.
pub record Operation {ℓ} (Packed : Type ℓ) : Type ℓ where
  pub status : StatusCode
  pub result : Packed

-- `status.FromError`, `none` where it is not ok, and `status.Error`.
pub record GrpcStatus {ℓ} (Error : Type ℓ) : Type ℓ where
  pub code_of : Error → Option Code
  pub status_error : Code → String → Error

-- What `f` returns: an operation, which may be nil, or an error.
pub data Reply {ℓ κ} (Packed : Type ℓ) (Error : Type κ) : Type (ℓ ⊔ κ) where
  answered : Option (Operation Packed) → Reply Packed Error
  failed : Error → Reply Packed Error

-- What `WrapWithRetries` returns. A status read from a nil operation panics.
pub data Retried {ℓ κ} (Packed : Type ℓ) (Error : Type κ) : Type (ℓ ⊔ κ) where
  returned : Operation Packed → Retried Packed Error
  refused : Error → Retried Packed Error
  exceeded : ℕ → Option Error → Retried Packed Error
  panicked : Retried Packed Error

-- Nanoseconds, with the product wrapped around. The power is exact and fits an `int` for the attempts
-- below 63; beyond, Go leaves its conversion to the machine.
unfoldable pub backoff_time_after : ℕ → ℤ
backoff_time_after attempt = wrap_all (pos (1000000000 * 2 ^ attempt))

unfoldable pub should_retry : Code → Bool
should_retry unavailable = true
should_retry (another_code n) = false

unfoldable pub is_retryable_status : StatusCode → Bool
is_retryable_status unavailable = true
is_retryable_status _ = false

-- What an attempt comes to: an end, or an error after which the next attempt is due.
pub data Verdict {ℓ κ} (Packed : Type ℓ) (Error : Type κ) : Type (ℓ ⊔ κ) where
  end : Retried Packed Error → Verdict Packed Error
  again : Error → Verdict Packed Error

module _ {ℓ κ} {Packed : Type ℓ} {Error : Type κ} where
  abbrev pub after_verdict :
      Verdict Packed Error → (Error → Retried Packed Error × List ℤ) → Retried Packed Error × List ℤ
  after_verdict (end r) next = (r, [])
  after_verdict (again err) next = next err

  -- The delay is slept, unless the attempt was the last.
  abbrev pub sleep_before : ℕ → ℕ → Retried Packed Error × List ℤ → Retried Packed Error × List ℤ
  sleep_before max_attempts attempt (r, delays) =
      (r, if ltb attempt (max_attempts - 1) then backoff_time_after attempt ∷ delays else delays)

abbrev pub is_transient {ℓ} : {Error : Type ℓ} → GrpcStatus Error → Error → Bool
is_transient grpc err = elim (grpc.code_of err) [ none ↦ false | some code ↦ should_retry code ]

module _ {ℓ κ} {Packed : Type ℓ} {Error : Type κ} (grpc : GrpcStatus Error) where
  abbrev pub judge_error : Error → Verdict Packed Error
  judge_error err = if is_transient grpc err then again err else end (refused err)

  unfoldable pub judge : Reply Packed Error → Verdict Packed Error
  unfolding is_retryable_status
  judge (answered none) = end panicked
  judge (answered (some op)) =
      if is_retryable_status op.status
      then judge_error (grpc.status_error unavailable "operation status UNAVAILABLE")
      else end (returned op)
  judge (failed err) = judge_error err

  -- The loop with so many attempts left; the second component lists the delays that were slept.
  unfoldable pub retry_from :
      ℕ → ℕ → ℕ → Option Error → (ℕ → Reply Packed Error) → Retried Packed Error × List ℤ
  retry_from max_attempts zero attempt last_error f = (exceeded max_attempts last_error, [])
  retry_from max_attempts (suc left) attempt last_error f =
      after_verdict (judge (f attempt)) (λ err.
        sleep_before max_attempts attempt (retry_from max_attempts left (attempt + 1) (some err) f))

  unfoldable pub wrap_with_retries : ℕ → (ℕ → Reply Packed Error) → Retried Packed Error × List ℤ
  unfolding retry_from
  wrap_with_retries max_attempts f = retry_from max_attempts max_attempts 0 none f
