-- ===== src/Retries/Attempts.antt =====
-- `WrapWithRetries` of pkg/utils/retries.go: which attempt decides, and the delays between attempts.
use native.Mathlib.Nat.{pow-le-pow_right, two-pow-succ}
use ydbops.Base.{
  ℕ, zero, suc, ◌+◌, ◌*◌, ◌^◌, ◌<◌, ◌≤◌, ◌≡◌, ◌≢◌, ◌∙◌, ap, refl, true, false, Option, none, some,
  List, [], ◌∷◌, arith,
}
use ydbops.Base.Int.{ℤ, pos, wrap_all, max_int}
use ydbops.Retries.{
  GrpcStatus, Code, another_code, StatusCode, success, another_status, Operation, Reply, answered,
  failed, Retried, returned, refused, exceeded, should_retry, is_retryable_status, end, again,
  judge, backoff_time_after, wrap_with_retries,
}
use ydbops.Retries.Deciding.{delays_from, Transient, retries_end, all_attempts}

-- So many delays, each twice the one before it.
abbrev doubling : ℕ → ℕ → List ℤ
doubling delay zero = []
doubling delay (suc n) = pos delay ∷ doubling (2 * delay) n

in_range : (n : ℕ) → n ≤ max_int → wrap_all (pos n) ≡ pos n
in_range n h = ground arith

twice : (attempt : ℕ) → 1000000000 * 2 ^ (attempt + 1) ≡ 2 * (1000000000 * 2 ^ attempt)
twice attempt = omega (arith, two-pow-succ attempt, ap (λ (t : ℕ). 2 ^ t) (add_one attempt))
  where
    add_one : (a : ℕ) → a + 1 ≡ suc a
    add_one a = omega arith

backoff-exact :
    (attempt : ℕ) → attempt ≤ 33 → backoff_time_after attempt ≡ pos (1000000000 * 2 ^ attempt)
unfolding backoff_time_after
backoff-exact attempt h =
    in_range (1000000000 * 2 ^ attempt)
      (omega (arith, pow-le-pow_right {n = 2} (omega arith) {i = attempt} {j = 33} h))

delays_from-doubling :
    (n attempt : ℕ)
    → attempt + n ≤ 34
    → delays_from attempt n ≡ doubling (1000000000 * 2 ^ attempt) n
unfolding backoff_time_after
delays_from-doubling zero attempt h = refl
delays_from-doubling (suc n) attempt h = λ i.
    backoff-exact attempt (omega (arith, h)) i
    ∷ (delays_from-doubling n (attempt + 1) (omega (arith, h))
          ∙ ap (λ t. doubling t n) (twice attempt))
        i

-- The error says that the service is not available.
abbrev IsUnavailable {ℓ} : {Error : Type ℓ} → GrpcStatus Error → Error → Type 0
IsUnavailable grpc err = grpc.code_of err ≡ some Code.unavailable

code_passes :
    (code : Option Code)
    → code ≡ some Code.unavailable
    → elim code [ none ↦ false | some c ↦ should_retry c ] ≡ true
unfolding should_retry
code_passes none e = cc
code_passes (some Code.unavailable) e = refl
code_passes (some (another_code n)) e = cc

code_refused :
    (code : Option Code)
    → code ≢ some Code.unavailable
    → elim code [ none ↦ false | some c ↦ should_retry c ] ≡ false
unfolding should_retry
code_refused none h = refl
code_refused (some Code.unavailable) h = absurd (h refl)
code_refused (some (another_code n)) h = refl

other_status : (s : StatusCode) → s ≢ StatusCode.unavailable → is_retryable_status s ≡ false
unfolding is_retryable_status
other_status StatusCode.unavailable h = absurd (h refl)
other_status success h = refl
other_status (another_status n) h = refl

module _ {ℓ κ} {Packed : Type ℓ} {Error : Type κ} (grpc : GrpcStatus Error) where
  -- A reply after which another attempt is due, with the error that is kept: the service is not
  -- available, or says so in the status of its operation.
  pub data MayPass : Reply Packed Error → Error → Type (ℓ ⊔ κ) where
    no_service : (err : Error) → IsUnavailable grpc err → MayPass (failed err) err
    unavailable_status :
        (op : Operation Packed)
        → op.status ≡ StatusCode.unavailable
        → IsUnavailable grpc (grpc.status_error Code.unavailable "operation status UNAVAILABLE")
        → MayPass
            (answered (some op))
            (grpc.status_error Code.unavailable "operation status UNAVAILABLE")

  -- A reply that decides: an operation of another status, or an error of another kind.
  pub data Decides : Reply Packed Error → Retried Packed Error → Type (ℓ ⊔ κ) where
    answer :
        (op : Operation Packed)
        → op.status ≢ StatusCode.unavailable
        → Decides (answered (some op)) (returned op)
    refusal : (err : Error) → ¬ (IsUnavailable grpc err) → Decides (failed err) (refused err)

  MayPass-judge :
      {reply : Reply Packed Error} {err : Error} → MayPass reply err → judge grpc reply ≡ again err
  unfolding judge is_retryable_status
  MayPass-judge (no_service err e) = rw (code_passes (grpc.code_of err) e) refl
  MayPass-judge (unavailable_status op s e) =
      rw
        (
          s,
          code_passes
              (grpc.code_of (grpc.status_error Code.unavailable "operation status UNAVAILABLE")) e,
        )
        refl

  Decides-judge :
      {reply : Reply Packed Error} {r : Retried Packed Error}
      → Decides reply r
      → judge grpc reply ≡ end r
  unfolding judge
  Decides-judge (answer op h) = rw (other_status op.status h) refl
  Decides-judge (refusal err h) = rw (code_refused (grpc.code_of err) h) refl

  module _ (max_attempts : ℕ) (f : ℕ → Reply Packed Error) (errors : ℕ → Error) where
    MayPass-Transient :
        (n attempt : ℕ)
        → ((i : ℕ) → i < attempt + n → MayPass (f i) (errors i))
        → Transient grpc max_attempts f errors attempt n
    MayPass-Transient zero attempt h = tt
    MayPass-Transient (suc n) attempt h = (
      MayPass-judge (h attempt (omega arith)),
      MayPass-Transient n (attempt + 1) (λ i less. h i (omega (arith, less))),
    )

    -- In every attempt before number `k` the service is not available, or says so in the status of its
    -- operation; number `k` is allowed and gives an operation of another status or an error of another
    -- kind. Then that is the result, and before it so many delays were slept: 1 second, and each of the
    -- next twice the one before. That is so for up to 34 delays, which fit in 64 bits.
    pub wrap_with_retries-end :
        (k : ℕ) (r : Retried Packed Error)
        → k < max_attempts
        → k ≤ 34
        → ((i : ℕ) → i < k → MayPass (f i) (errors i))
        → Decides (f k) r
        → wrap_with_retries grpc max_attempts f ≡ (r, doubling 1000000000 k)
    wrap_with_retries-end k r h few fails last =
        retries_end grpc max_attempts f errors k r h
          (MayPass-Transient k 0 (λ i less. fails i (omega (arith, less)))) (Decides-judge last)
        ∙ ap (λ delays. (r, delays)) (delays_from-doubling k 0 (omega (arith, few)))

    -- In every one of the attempts, up to 35, the service is not available, or says so in the status of
    -- its operation. Then the result is that the retries are exceeded, with the last error, and the
    -- delays of 1 second, 2 seconds and so on were slept between the attempts, none after the last.
    pub wrap_with_retries-exceeded :
        (left : ℕ)
        → max_attempts ≡ suc left
        → left ≤ 34
        → ((i : ℕ) → i < max_attempts → MayPass (f i) (errors i))
        → wrap_with_retries grpc max_attempts f
          ≡ (exceeded max_attempts (some (errors left)), doubling 1000000000 left)
    unfolding wrap_with_retries
    wrap_with_retries-exceeded left e few fails =
        all_attempts grpc max_attempts f errors max_attempts left e (omega arith)
          (MayPass-Transient max_attempts 0 (λ i less. fails i (omega (arith, less))))
        ∙ ap (λ delays. (exceeded max_attempts (some (errors left)), delays))
            (delays_from-doubling left 0 (omega (arith, few)))
