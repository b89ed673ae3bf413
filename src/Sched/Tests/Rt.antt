-- ===== src/Sched/Tests/Rt.antt =====
-- The laws of kernel/sched/rt.c at concrete tasks, with a search for the first bit.
use kernel_programming.Sched.RtClass.Timer.{period_timer-IsRtQueued}
use kernel_programming.Sched.RtClass.Pick.{pick_next_task_rt-IsRightPick, IsRightPick}
use kernel_programming.Sched.RtClass.Save.{dequeue_task_rt-enqueue_task_rt}
use kernel_programming.Prelude.{
  ℕ, zero, suc, ◌+◌, ◌>>=◌, ◌≤◌, ◌<◌, ◌≡◌, refl, arith, Bool, true, false, some, [], ◌∷◌,
  if◌then◌else◌, ◌==◌, ◌||◌, ℕ_discrete, sym,
}
use kernel_programming.Prelude.Int.{pos}
use kernel_programming.Sched.{Rq, Task, update, rt_sched_class, sched_rr}
use kernel_programming.Sched.Rt.{RtEnv, enlist_list}
use kernel_programming.Sched.Rt.Active.{FindsFirst, total}
use kernel_programming.Sched.Rt.Frame.{IsSameRt, IsSameRt-refl, others}
use kernel_programming.Sched.RtClass.{
  enqueue_task_rt, dequeue_task_rt, pick_next_task_rt, period_timer,
}
use kernel_programming.Sched.RtClass.Queue.{IsRtQueued}
use kernel_programming.Sched.RtClass.Keep.{enqueue_task_rt-IsRtQueued}
use kernel_programming.Sched.Tests.{task_of, rq_of, no_rt}

abbrev scan : ℕ → ℕ → (ℕ → Bool) → ℕ
scan zero i bits = i
scan (suc n) i bits = let rest = scan n (i + 1) bits in if bits i then i else rest

scan_lem :
    (n i j : ℕ) (bits : ℕ → Bool)
    → i ≤ j
    → j < i + n
    → bits j ≡ true
    → (bits (scan n i bits) ≡ true) × (scan n i bits ≤ j)
scan_lem zero i j bits lo hi e = absurd (omega arith)
scan_lem (suc n) i j bits lo hi e = elim (ℕ_discrete i j) [
  | yes same ↦ ground (arith, same)
  | no ne ↦ ground (arith, scan_lem n (i + 1) j bits (omega arith) (omega arith) e)
]

abbrev pub rt_env : RtEnv
rt_env = record {
  delta_exec = λ rq. pos 1000;
  bandwidth_enabled = true;
  rt_period = 10000;
  def_runtime = 9500;
  find_first_bit = scan 101 0;
  rr_timeslice = 25;
  jiffies = 7;
  has_rttime = λ p. true;
}

scan-FindsFirst : FindsFirst rt_env.find_first_bit
scan-FindsFirst bits i le e = scan_lem 101 0 i bits (omega arith) (omega arith) e

-- The tasks 1 and 2 are queued at the priority 30, the task 1 runs; the task 3 sleeps.
abbrev rt_task : ℕ → Task
rt_task p = record (task_of sched_rr rt_sched_class (pos 30) 0) {
  rt_on_rq = p == 1 || p == 2;
  rt_on_list = p == 1 || p == 2;
  rt_time_slice = 1;
}

abbrev two_rt : Rq
two_rt = record (rq_of 1 (λ i. []) rt_task) {
  nr_running = 3;
  rt = record no_rt {
    queue = update (λ i. []) 30 (1 ∷ 2 ∷ []);
    bitmap = update (update (λ i. false) 30 true) 100 true;
    rt_nr_running = 2;
    rr_nr_running = 2;
    highest_prio = 30;
    rt_queued = true;
    rt_runtime = 9500;
    rt_time = 9400;
  };
}

total_two : total 100 two_rt.rt.queue ≡ 2
unfolding total
total_two = refl

two_rt-IsRtQueued : IsRtQueued rt_env.find_first_bit two_rt
two_rt-IsRtQueued = record {
  active = record {
    placed = λ i p lt c. ground arith;
    once = λ i p lt. ground arith;
    bits = λ i lt. ground arith;
    delimiter = refl;
    highest = refl;
    running = sym total_two;
  };
  counts = record {
    counted = λ e. omega arith;
    offered = λ e. omega arith;
    paused = λ e. absurd (ground arith);
    small = omega arith;
  };
}

enqueue_task_rt-IsRtQueued_example :
    (rq : Rq) × (enqueue_task_rt rt_env two_rt 3 1 ≡ some rq)
    × IsRtQueued rt_env.find_first_bit rq
    × (rq.rt.queue 30 ≡ 1 ∷ 2 ∷ 3 ∷ [])
    × (others rq ≡ 1)
unfolding enlist_list
enqueue_task_rt-IsRtQueued_example =
    enqueue_task_rt-IsRtQueued rt_env scan-FindsFirst 3 30 1 (omega arith) refl two_rt
      two_rt-IsRtQueued refl refl (λ j lt. ground arith) (omega (arith, total_two))

dequeue_task_rt-enqueue_task_rt_example :
    (rq : Rq) × ((dequeue_task_rt rt_env two_rt 2 10 >>= λ x. enqueue_task_rt rt_env x 2 10)
      ≡ some rq)
    × IsSameRt two_rt rq
dequeue_task_rt-enqueue_task_rt_example =
    dequeue_task_rt-enqueue_task_rt rt_env scan-FindsFirst 2 30 (omega arith) two_rt 10 10 refl refl
      two_rt-IsRtQueued.active refl refl (omega arith) (omega (arith, total_two))

pick_next_task_rt-IsRightPick_example :
    let (pick, rq) = pick_next_task_rt rt_env (λ rq p. rq) two_rt 1 in IsRightPick two_rt pick rq
pick_next_task_rt-IsRightPick_example =
    pick_next_task_rt-IsRightPick rt_env scan-FindsFirst (λ rq p. rq) two_rt 1 IsSameRt-refl
      two_rt-IsRtQueued

abbrev over_time : Rq
over_time = record two_rt { rt = record two_rt.rt { rt_time = 12000 } }

period_timer-IsRtQueued_example : IsRtQueued rt_env.find_first_bit (period_timer rt_env two_rt 1).1
period_timer-IsRtQueued_example =
    period_timer-IsRtQueued rt_env two_rt 1 two_rt-IsRtQueued (rw total_two (omega arith))
