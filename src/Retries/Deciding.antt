-- ===== src/Retries/Deciding.antt =====
-- The loop of `WrapWithRetries` of pkg/utils/retries.go over what its attempts come to.
use mathlib.Core.Path.{subst}
use ydbops.Base.{
  ℕ, zero, suc, ◌+◌, ◌-◌, ◌<◌, ◌≡◌, refl, true, false, Option, none, some, List, [], ◌∷◌, ltb,
  arith,
}
use ydbops.Base.Int.{ℤ}
use ydbops.Retries.{
  GrpcStatus, Reply, Retried, exceeded, end, again, judge, backoff_time_after, retry_from,
  wrap_with_retries,
}

-- The delays after so many attempts, from an attempt on, as the code computes them.
abbrev pub delays_from : ℕ → ℕ → List ℤ
delays_from attempt zero = []
delays_from attempt (suc n) = backoff_time_after attempt ∷ delays_from (attempt + 1) n

module _ {ℓ κ} {Packed : Type ℓ} {Error : Type κ} (grpc : GrpcStatus Error) (max_attempts : ℕ)
    (f : ℕ → Reply Packed Error) (errors : ℕ → Error) where
  -- So many attempts fail in a way that may pass.
  abbrev pub Transient : ℕ → ℕ → Type (ℓ ⊔ κ)
  Transient attempt zero = Unit
  Transient attempt (suc n) =
      (judge grpc (f attempt) ≡ again (errors attempt)) × Transient (attempt + 1) n

  attempt_left : (a b : ℕ) → a + suc (suc b) ≡ max_attempts → ltb a (max_attempts - 1) ≡ true
  attempt_left a b h = ground arith

  last_attempt : (a : ℕ) → a + 1 ≡ max_attempts → ltb a (max_attempts - 1) ≡ false
  last_attempt a h = ground arith

  drop_zero : (a k : ℕ) → a + 0 ≡ k → a ≡ k
  drop_zero a k h = omega arith

  retry_from-end :
      (d left attempt k : ℕ) (last_error : Option Error) (r : Retried Packed Error)
      → d < left
      → attempt + left ≡ max_attempts
      → attempt + d ≡ k
      → Transient attempt d
      → judge grpc (f k) ≡ end r
      → retry_from grpc max_attempts left attempt last_error f ≡ (r, delays_from attempt d)
  unfolding retry_from
  retry_from-end d zero attempt k last_error r h sum here fails last = absurd (omega arith)
  retry_from-end zero (suc left) attempt k last_error r h sum here fails last =
      rw (drop_zero attempt k here, last) refl
  retry_from-end (suc d) (suc zero) attempt k last_error r h sum here (fail, fails) last =
      absurd (omega arith)
  retry_from-end (suc d) (suc (suc left)) attempt k last_error r h sum here (fail, fails) last =
      rw
        (
          fail,
          retry_from-end d (suc left) (attempt + 1) k (some (errors attempt)) r (omega arith)
              (omega arith) (omega arith) fails last,
          attempt_left attempt left sum,
        )
        refl

  retry_from-exceeded :
      (left attempt k : ℕ) (last_error : Option Error)
      → attempt + suc left ≡ max_attempts
      → attempt + left ≡ k
      → Transient attempt (suc left)
      → retry_from grpc max_attempts (suc left) attempt last_error f
        ≡ (exceeded max_attempts (some (errors k)), delays_from attempt left)
  unfolding retry_from
  retry_from-exceeded zero attempt k last_error sum here (fail, fails) =
      rw (fail, last_attempt attempt sum, ← drop_zero attempt k here) refl
  retry_from-exceeded (suc left) attempt k last_error sum here (fail, fails) =
      rw
        (
          fail,
          retry_from-exceeded left (attempt + 1) k (some (errors attempt)) (omega arith)
              (omega arith) fails,
          attempt_left attempt left sum,
        )
        refl

  -- The attempts before number `k` are tried again, and number `k` ends the loop and is allowed.
  pub retries_end :
      (k : ℕ) (r : Retried Packed Error)
      → k < max_attempts
      → Transient 0 k
      → judge grpc (f k) ≡ end r
      → wrap_with_retries grpc max_attempts f ≡ (r, delays_from 0 k)
  unfolding wrap_with_retries
  retries_end k r h fails last =
      retry_from-end k max_attempts 0 k none r h (omega arith) (omega arith) fails last

  pub all_attempts :
      (n left : ℕ)
      → n ≡ suc left
      → 0 + n ≡ max_attempts
      → Transient 0 n
      → retry_from grpc max_attempts n 0 none f
        ≡ (exceeded max_attempts (some (errors left)), delays_from 0 left)
  all_attempts n left e sum fails = rw e (
      retry_from-exceeded left 0 left none (omega arith) (omega arith)
        (subst (Transient 0) e fails))
