-- ===== src/Sched/RtClass/Timer.antt =====
-- The timer of the real-time bandwidth keeps the real-time class well formed (kernel/sched/rt.c).
use kernel_programming.Prelude.{
  ℕ, ◌+◌, ◌^◌, ◌<◌, ◌≤◌, ◌≡◌, refl, arith, Bool, true, false, ◌==◌, if_cases,
}
use kernel_programming.Sched.{Rq, resched_curr}
use kernel_programming.Sched.Rt.{RtEnv, enqueue_top_rt_rq}
use kernel_programming.Sched.Rt.Active.{total}
use kernel_programming.Sched.Rt.Frame.{
  IsCounted, IsSameRt, IsSameRt-refl, IsSameRt-trans, IsActive-IsSameRt, enqueue_top-IsSameRt,
  resched_curr-IsSameRt, others,
}
use kernel_programming.Sched.RtClass.{period_timer, sched_rt_rq_enqueue}
use kernel_programming.Sched.RtClass.Queue.{IsRtQueued}
use kernel_programming.Sched.RtClass.Throttle.{refilled, timer_round_cases}

module _ (env : RtEnv) where
  sched_rt_rq_enqueue-IsSameRt : (rq : Rq) → IsSameRt rq (sched_rt_rq_enqueue env rq)
  unfolding sched_rt_rq_enqueue
  sched_rt_rq_enqueue-IsSameRt rq =
      if_cases (IsSameRt rq) (rq.rt.rt_nr_running == 0) _ _ (λ e. IsSameRt-refl rq)
        (λ e. IsSameRt-trans rq _ _ (enqueue_top-IsSameRt rq) (resched_curr-IsSameRt _))

  sched_rt_rq_enqueue-IsCounted :
      (rq : Rq)
      → others rq + rq.rt.rt_nr_running < 2 ^ 32
      → (rq.rt.rt_queued ≡ true → rq.rt.rt_nr_running ≤ rq.nr_running)
      → (rq.rt.rt_queued ≡ true → 0 < rq.rt.rt_nr_running)
      → IsCounted (sched_rt_rq_enqueue env rq)
  unfolding sched_rt_rq_enqueue enqueue_top_rt_rq resched_curr
  sched_rt_rq_enqueue-IsCounted rq few counted offered = ground arith

  refilled-IsSameRt : (t : Bool) (rq : Rq) (overrun : ℕ) → IsSameRt rq (refilled env t rq overrun)
  refilled-IsSameRt t rq overrun = record {
    queue = refl;
    bitmap = refl;
    highest = refl;
    running = refl;
    prio = λ q. refl;
    listed = λ q. refl;
  }

  kept :
      (rq : Rq)
      → IsRtQueued env.find_first_bit rq
      → (x : Rq) → IsSameRt rq x
      → IsCounted x
      → IsRtQueued env.find_first_bit x
  kept rq v x s c = record {
    active = IsActive-IsSameRt env.find_first_bit rq x s v.active;
    counts = c;
  }

  -- If the real-time class is well formed and the tasks of the other classes and its own are
  -- together fewer than 2^32, then the class is well formed after the timer, however many periods
  -- have passed and whether or not it was throttled: the lists, the bitmap, the highest priority
  -- and the numbers of tasks agree, and the count of runnable tasks holds the real-time tasks when
  -- they are offered.
  pub period_timer-IsRtQueued :
      (rq : Rq) (overrun : ℕ)
      → IsRtQueued env.find_first_bit rq
      → others rq + total 100 rq.rt.queue < 2 ^ 32
      → IsRtQueued env.find_first_bit (period_timer env rq overrun).1
  unfolding period_timer
  period_timer-IsRtQueued rq overrun v few =
      timer_round_cases env (λ r. IsRtQueued env.find_first_bit r.1) rq overrun v v
        (λ free. kept rq v _ (sched_rt_rq_enqueue-IsSameRt rq) (
          sched_rt_rq_enqueue-IsCounted rq (omega (arith, few, v.active.running)) v.counts.counted
            v.counts.offered))
        (λ b.
          kept rq v (refilled env rq.rt.rt_throttled rq overrun) (refilled-IsSameRt _ rq overrun)
            (record {
              counted = v.counts.counted;
              offered = v.counts.offered;
              paused = v.counts.paused;
              small = v.counts.small;
            }))
        (λ b over.
          let x = refilled env false rq overrun in
          kept rq v (sched_rt_rq_enqueue env x)
            (IsSameRt-trans rq x _ (refilled-IsSameRt false rq overrun)
              (sched_rt_rq_enqueue-IsSameRt x))
            (sched_rt_rq_enqueue-IsCounted x (omega (arith, few, v.active.running)) v.counts.counted
              v.counts.offered))
