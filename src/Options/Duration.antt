-- ===== src/Options/Duration.antt =====
-- `GetRestartDuration` of pkg/rolling/options.go in nanoseconds: for how long CMS is asked to give the
-- nodes up. The rounded quotient of two floating-point numbers is a parameter.
pub mod Covers
use ydbops.Base.{ℕ, ◌+◌, ◌*◌}
use ydbops.Base.Int.{ℤ, pos, mul64, add64}
use ydbops.Options.Restart.{RestartOptions}

-- `time.Second`, in nanoseconds.
abbrev pub second : ℕ
second = 1000000000

-- `ceil_quotient n m` is `int(math.Ceil(float64(n) / float64(m)))`.
module _ (ceil_quotient : ℕ → ℤ → ℤ) where
  unfoldable pub get_restart_duration : RestartOptions → ℕ → ℤ
  get_restart_duration o n_nodes =
      let single_batch_restart_time =
        mul64 (mul64 (pos second) o.restart_duration) o.restart_retry_number in
      let single_batch_with_wait = add64 single_batch_restart_time o.delay_between_restarts in
      let maximum_total_batches = ceil_quotient n_nodes o.nodes_inflight in
      mul64 maximum_total_batches single_batch_with_wait
