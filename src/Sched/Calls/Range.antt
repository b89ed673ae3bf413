-- ===== src/Sched/Calls/Range.antt =====
-- kernel/sched/core.c, the range of the priorities of a policy, and what a scheduler with SCHED_TS
-- makes of it and of the tick.
use kernel_programming.Prelude.{
  ℕ, ◌<◌, ◌≡◌, ◌⊎◌, inl, inr, true, ◌∙◌, Bool, some, arith, refl, Bool-cases,
}
use kernel_programming.Sched.{resched_curr, Rq, Task, sched_ts, valid_policy, rt_policy, ts_policy}
use kernel_programming.Sched.Ts.{enqueue_task_ts, dequeue_task_ts, yield_task_ts, task_tick_ts}
use kernel_programming.Sched.Ts.Reach.{
  Step, enqueues, dequeues, yields, ticks, changes, switches, Reach, here, next,
}
use kernel_programming.Sched.Prio.{SchedAttr}
use kernel_programming.Sched.Policy.{Permit, check_request, einval}
use kernel_programming.Sched.Calls.{
  error, value, sched_get_priority_max, sched_get_priority_min, sched_can_stop_tick,
}

-- A policy that __sched_setscheduler knows has a lowest and a highest priority, except SCHED_TS, for
-- which both calls fail; and outside of the range of its policy a priority is refused.
pub priority_range :
    (permit : Permit) (t : Task) (attr : SchedAttr) (user : Bool) (policy : ℕ)
    → attr.sched_policy ≡ some policy
    → valid_policy policy ≡ true
    → ((policy ≡ sched_ts)
        × (sched_get_priority_min policy ≡ error einval)
        × (sched_get_priority_max policy ≡ error einval))
      ⊎ ((lo : ℕ) × (hi : ℕ) × (sched_get_priority_min policy ≡ value lo)
          × (sched_get_priority_max policy ≡ value hi)
          × ((attr.sched_priority < lo) ⊎ (hi < attr.sched_priority)
              → check_request permit t attr user ≡ einval))
unfolding sched_get_priority_max sched_get_priority_min
priority_range permit t attr user policy e v = elim (Bool-cases (rt_policy policy)) [
  | inl rt ↦ inr (1, 99, rw rt refl, rw rt refl, λ out. rw e (ground arith))
  | inr other ↦ elim (Bool-cases (ts_policy policy)) [
    | inl ts ↦ inl (ground arith, ground arith, ground arith)
    | inr rest ↦ inr (0, 0, ground arith, ground arith, λ out. rw e (ground arith))
  ]
]

Step-sched_can_stop_tick :
    {rq rq' : Rq} → Step rq rq' → sched_can_stop_tick rq' ≡ sched_can_stop_tick rq
unfolding sched_can_stop_tick enqueue_task_ts dequeue_task_ts yield_task_ts task_tick_ts
    resched_curr
Step-sched_can_stop_tick (enqueues rq rq' p flags asleep h u e) = ground arith
Step-sched_can_stop_tick (dequeues rq p flags) = refl
Step-sched_can_stop_tick (yields rq rq' h e) = ground arith
Step-sched_can_stop_tick (ticks rq rq' p e) = ground arith
Step-sched_can_stop_tick (changes rq p t u) = refl
Step-sched_can_stop_tick (switches rq q) = refl

-- However many time-sharing tasks are enqueued, dequeued, run and ticked, in any order, what
-- sched_can_stop_tick says does not change: on a CPU where it let the tick stop at first, it still does.
pub Reach-sched_can_stop_tick :
    (rq rq' : Rq) → Reach rq rq' → sched_can_stop_tick rq' ≡ sched_can_stop_tick rq
Reach-sched_can_stop_tick rq rq' here = refl
Reach-sched_can_stop_tick rq rq' (next {rq1 = rq1} r s) =
    Step-sched_can_stop_tick s ∙ Reach-sched_can_stop_tick rq rq1 r
