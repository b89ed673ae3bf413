-- ===== src/Sched/Tests.antt =====
-- Runs of the scheduler of HW5-scheduler/kernel/sched on concrete queues.
mod Ts
mod Core
mod Rt
mod Wake
mod Share
mod Calls
use kernel_programming.Prelude.{ℕ, List, [], ◌∷◌, false, none, ◌<◌, ◌≤◌, ◌≡◌, count, arith}
use kernel_programming.Prelude.Int.{ℤ, pos}
use kernel_programming.Sched.{Task, Rq, RtRq, SchedClass, ts_sched_class, sched_ts, update}
use kernel_programming.Sched.Frame.{prio_of}
use kernel_programming.Sched.Ts.Invariant.{IsPlaced, IsWellQueued}

abbrev pub task_of : ℕ → SchedClass → ℤ → ℕ → Task
task_of policy class prio slice = record {
  policy = policy;
  prio = prio;
  static_prio = pos 120;
  normal_prio = pos 120;
  rt_priority = 0;
  sched_class = class;
  state = 0;
  on_rq = 1;
  need_resched = false;
  sched_reset_on_fork = false;
  time_slice = slice;
  rt_timeout = 0;
  watchdog_stamp = 0;
  rt_time_slice = 0;
  rt_on_rq = false;
  rt_on_list = false;
  weight = 0;
  inv_weight = 0;
  pi_top_task = none;
  dl_boosted = false;
  nvcsw = 0;
  nivcsw = 0;
}

abbrev pub no_rt : RtRq
no_rt = record {
  queue = λ i. [];
  bitmap = λ i. false;
  rt_nr_running = 0;
  rr_nr_running = 0;
  highest_prio = 100;
  rt_queued = false;
  rt_throttled = false;
  rt_time = 0;
  rt_runtime = 0;
}

abbrev pub rq_of : ℕ → (ℕ → List ℕ) → (ℕ → Task) → Rq
rq_of curr queue task = record {
  curr = curr;
  idle = 0;
  stop = none;
  nr_running = 0;
  nr_uninterruptible = 0;
  nr_switches = 0;
  h_nr_running = 0;
  dl_nr_running = 0;
  ts = queue;
  rt = no_rt;
  task = task;
}

-- The tasks 1 and 2, the first running, on the queue 19 of the priority 120.
abbrev pub two_tasks : Rq
two_tasks =
    rq_of 1 (update (λ i. []) 19 (1 ∷ 2 ∷ [])) (λ p. task_of sched_ts ts_sched_class (pos 120) 1)

pub two_tasks-IsWellQueued : IsWellQueued two_tasks
two_tasks-IsWellQueued = record { placed = λ i p lt c. ground arith; once = λ i p lt. ground arith }
