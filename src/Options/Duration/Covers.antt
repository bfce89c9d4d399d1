-- ===== src/Options/Duration/Covers.antt =====
-- GetRestartDuration asks for enough time, where no product leaves the range of 64 bits.
use ydbops.Base.{ℕ, ◌+◌, ◌*◌, ◌≤◌, ◌<◌, ◌≡◌}
use ydbops.Base.Int.{ℤ, pos, mul64, add64}
use ydbops.Options.Duration.{second}

-- What the rounded quotient is for numbers that floating point keeps apart: the least whole number of
-- batches of `m` nodes that has room for `n` nodes.
pub data IsCeil (n m : ℕ) (q : ℤ) : Type 0 where
  is_ceil : (k : ℕ) → q ≡ pos k → n ≤ k * m → k * m < n + m → IsCeil n m q

-- The time of a batch that waits for `r` restarts of `d` seconds each and for `w`.
abbrev pub batch_time : ℕ → ℕ → ℕ → ℕ
batch_time d r w = second * d * r + w

-- The time of as many batches of `m` nodes, one after the other, as it takes to have room for `n` nodes,
-- and of no more.
pub data IsTimeFor (n m batch : ℕ) (duration : ℤ) : Type 0 where
  enough :
      (k : ℕ)
      → duration ≡ pos (k * batch)
      → n ≤ k * m
      → ((j : ℕ) → n ≤ j * m → k ≤ j)
      → IsTimeFor n m batch duration

-- The product that is computed, over the values of the fields.
unfoldable product : ℤ → ℤ → ℤ → ℤ → ℤ
product batches duration retries delay =
    mul64 batches (add64 (mul64 (mul64 (pos second) duration) retries) delay)
