-- ===== src/Sched/Tests/Wake.antt =====
-- Wakeups of kernel/sched/core.c on concrete tasks.
use kernel_programming.Sched.Ts.{enqueue_task_ts}
use kernel_programming.Prelude.{ℕ, ◌≡◌, refl, Bool, true, false, Option, none, some}
use kernel_programming.Prelude.Int.{pos}
use kernel_programming.Sched.{Rq, update, ts_sched_class, sched_ts}
use kernel_programming.Sched.Wake.{try_to_wake_up, common_bit}
use kernel_programming.Sched.Wake.Again.{try_to_wake_up-again}
use kernel_programming.Sched.Tests.{task_of, two_tasks}
use kernel_programming.Sched.Tests.Core.{no_load}

-- The task 3 sleeps.
abbrev asleep : Rq
asleep = record two_tasks {
  task =
      update two_tasks.task 3
        (record (task_of sched_ts ts_sched_class (pos 120) 1) { state = 1; on_rq = 0 });
}

abbrev after : Option (Bool × Rq) → Rq
after none = asleep
after (some (woken, rq)) = rq

abbrev awake : Rq
unfolding try_to_wake_up
awake = after (try_to_wake_up no_load asleep 3 3 0)

wakes_three : try_to_wake_up no_load asleep 3 3 0 ≡ some (true, awake)
unfolding try_to_wake_up awake common_bit enqueue_task_ts
wakes_three = refl

try_to_wake_up-again_example :
    ((flags : ℕ) → try_to_wake_up no_load awake 3 3 flags ≡ some (false, awake))
    × (true ≡ false → awake ≡ asleep)
try_to_wake_up-again_example = try_to_wake_up-again no_load 3 3 0 asleep true awake wakes_three
