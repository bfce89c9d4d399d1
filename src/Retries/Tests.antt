-- ===== src/Retries/Tests.antt =====
-- A call whose first two attempts find the service unavailable, and one whose five attempts do.
use ydbops.Base.{ℕ, zero, suc, ◌<◌, ◌≡◌, refl, some, [], ◌∷◌, ltb, arith, if◌then◌else◌}
use ydbops.Base.Int.{pos, negsuc}
use ydbops.Retries.{
  GrpcStatus, Code, Operation, StatusCode, Reply, answered, failed, returned, exceeded,
  backoff_time_after, wrap_with_retries,
}
use ydbops.Retries.Attempts.{
  MayPass, no_service, Decides, answer, wrap_with_retries-end, wrap_with_retries-exceeded,
}

-- Errors that are their codes.
abbrev code_errors : GrpcStatus Code
code_errors = record { code_of = λ code. some code; status_error = λ code message. code }

abbrev good : Operation ℕ
good = record { status = StatusCode.success; result = 7 }

abbrev third_time : ℕ → Reply ℕ Code
third_time attempt = if ltb attempt 2 then failed Code.unavailable else answered (some good)

abbrev unavailable_at : ℕ → Code
unavailable_at attempt = Code.unavailable

abbrev never : ℕ → Reply ℕ Code
never attempt = failed Code.unavailable

first_two : (i : ℕ) → i < 2 → MayPass code_errors (third_time i) (unavailable_at i)
first_two zero h = no_service Code.unavailable refl
first_two (suc zero) h = no_service Code.unavailable refl
first_two (suc (suc i)) h = absurd (omega (arith, h))

third : Decides code_errors (third_time 2) (returned good)
third = answer good (λ e. cc)

wrap_with_retries-end_example :
    wrap_with_retries code_errors 5 third_time
    ≡ (returned good, pos 1000000000 ∷ pos 2000000000 ∷ [])
wrap_with_retries-end_example =
    wrap_with_retries-end code_errors 5 third_time unavailable_at 2 (returned good) (omega arith)
      (omega arith) first_two third

wrap_with_retries-exceeded_example :
    wrap_with_retries code_errors 2 never
    ≡ (exceeded 2 (some Code.unavailable), pos 1000000000 ∷ [])
wrap_with_retries-exceeded_example =
    wrap_with_retries-exceeded code_errors 2 never unavailable_at 1 refl (omega arith)
      (λ i h. no_service Code.unavailable refl)

-- The 36th delay would be negative.
backoff_test : backoff_time_after 35 ≡ negsuc 2533749779419103231
unfolding backoff_time_after
backoff_test = refl
