-- ===== src/Sched/Tests/Share.antt =====
-- Two CPUs that lend each other runtime (kernel/sched/rt.c), and a write of their limits.
use kernel_programming.Prelude.{ℕ, ◌*◌, ◌^◌, ◌<◌, ◌≤◌, ◌≡◌, refl, true, List, [], ◌∷◌, some, arith}
use kernel_programming.Prelude.Int.{pos}
use kernel_programming.Sched.Rt.{RtEnv, runtime_inf}
use kernel_programming.Sched.Share.{Cpus, runtime, time, balance_runtime, disable_runtime}
use kernel_programming.Sched.Share.Sums.{share, is_on, sum_over}
use kernel_programming.Sched.Share.Domain.{IsDomain}
use kernel_programming.Sched.Share.Reach.{here, next, borrows, IsFresh, Reach-disable_runtime}
use kernel_programming.Sched.Bandwidth.{
  Limits, Proc, ok, sched_rt_handler, sched_rt_global_validate,
}
use kernel_programming.Sched.Bandwidth.Written.{sched_rt_handler-IsFresh}
use kernel_programming.Sched.Tests.{two_tasks, no_rt}
use kernel_programming.Sched.Tests.Rt.{rt_env}

abbrev both : List ℕ
both = 0 ∷ 1 ∷ []

abbrev same_limits : Cpus
same_limits i = record two_tasks { rt = record no_rt { rt_runtime = 9500; rt_time = 4000 } }

both-IsDomain : IsDomain rt_env both
both-IsDomain = record { nodup = λ j. ground arith; period = ground arith; bound = ground arith }

same_limits-IsFresh : IsFresh rt_env both same_limits
unfolding runtime time
same_limits-IsFresh = record { runtimes = λ j p. refl; times = λ j. ground arith }

below_period : runtime same_limits 0 < 10000
unfolding runtime
below_period = ground arith

Reach-disable_runtime_example :
    (c : Cpus) × (disable_runtime rt_env both true 1 (balance_runtime rt_env both 0 same_limits)
      ≡ some c)
    × (sum_over share (runtime c) both ≡ sum_over is_on (runtime c) both * 9500)
    × (runtime c 1 ≡ runtime_inf)
Reach-disable_runtime_example =
    Reach-disable_runtime rt_env both 1 same_limits (balance_runtime rt_env both 0 same_limits)
      both-IsDomain same_limits-IsFresh (next here (borrows same_limits 0 refl below_period)) refl

abbrev limits : Limits
limits = record {
  sysctl_sched_rt_period = 1000000;
  sysctl_sched_rt_runtime = pos 950000;
  sysctl_sched_rr_timeslice = pos 100;
  sched_rr_timeslice = 25;
  rt_period = 1000000000;
  rt_runtime = 950000000;
  cpus = same_limits;
}

-- A runtime above the period, and one below it.
abbrev too_long : Proc
too_long = record { ret = ok; period = 10; runtime = pos 11; slice = pos 100 }

abbrev fitting : Proc
fitting = record { ret = ok; period = 10; runtime = pos 9; slice = pos 100 }

abbrev fitting_env : RtEnv
fitting_env = record rt_env { rt_period = 10000; def_runtime = 9000 }

small_times : (j : ℕ) → time same_limits j < 2 ^ 62
unfolding time
small_times j = ground arith

sched_rt_handler-IsFresh_example :
    IsDomain fitting_env both
    × IsFresh fitting_env both (sched_rt_handler both fitting (λ l. ok) true limits).1.cpus
    × (9000 ≡ 9 * 1000)
    × (9000 ≤ 10000)
unfolding sched_rt_handler sched_rt_global_validate
sched_rt_handler-IsFresh_example =
    sched_rt_handler-IsFresh both fitting (λ l. ok) limits 9 fitting_env both refl refl refl
      (ground arith) (ground arith) small_times refl refl (λ j. ground arith) (ground arith)
      (λ j p. p)
