-- ===== src/Sched/Tests/Ts.antt =====
-- The laws of the time-sharing class (HW5-scheduler/kernel/sched/ts.c) at concrete tasks.
use kernel_programming.Sched.Ts.Reach.{Reach-pick_next_task_ts, here, next, enqueues}
use kernel_programming.Sched.Ts.Init.{init_ts_rq_lem}
use kernel_programming.Prelude.{ℕ, List, [], ◌∷◌, ◌++◌, true, some, ◌<◌, ◌≡◌, count, arith, refl}
use kernel_programming.Prelude.Int.{pos, pos_part, ◌≤ℤ◌}
use kernel_programming.Sched.{resched_curr, Rq, ts_sched_class, sched_ts, update}
use kernel_programming.Sched.Frame.{prio_of}
use kernel_programming.Sched.Ts.{
  task_tick_ts, enqueue_task_ts, pick_next_task_ts, list_del, get_new_prio, get_num_ticks,
  init_ts_rq, first_entry,
}
use kernel_programming.Sched.Ts.Invariant.{IsWellQueued, IsUnqueued}
use kernel_programming.Sched.Ts.Steps.{index_of, push_back, enqueue-IsWellQueued}
use kernel_programming.Sched.Ts.Tick.{IsQueued, tick-IsWellQueued, tick_expires}
use kernel_programming.Sched.Ts.Inversion.{wakeup_inversion}
use kernel_programming.Sched.Ts.Decay.{IsReady, ticks, ticks-lowest}
use kernel_programming.Sched.Tests.Core.{no_load}
use kernel_programming.Sched.Tests.{task_of, rq_of, two_tasks, two_tasks-IsWellQueued}

-- The slice of task 1 ends: it goes to the priority 130, with 12 ticks.
tick_run :
    (rq : Rq) × (task_tick_ts two_tasks 1 ≡ some rq) × (rq.ts 9 ≡ 1 ∷ []) × (rq.ts 19 ≡ 2 ∷ [])
unfolding task_tick_ts get_new_prio resched_curr
tick_run = (_, refl, refl, refl)

tick-IsWellQueued_example :
    (rq : Rq) × (task_tick_ts two_tasks 1 ≡ some rq)
    × IsWellQueued rq
    × (sched_ts ≡ sched_ts → IsQueued 1 rq)
tick-IsWellQueued_example =
    tick-IsWellQueued two_tasks 1 two_tasks-IsWellQueued (λ e. (19, ground arith, ground arith))

tick_expires_example :
    (rq : Rq) × (task_tick_ts two_tasks 1 ≡ some rq)
    × (prio_of rq 1 ≡ get_new_prio (pos 120) 0)
    × ((rq.task 1).time_slice ≡ get_num_ticks (get_new_prio (pos 120) 0))
    × (0 < get_num_ticks (get_new_prio (pos 120) 0))
    × (rq.ts (index_of (get_new_prio (pos 120) 0))
        ≡ list_del 1 two_tasks.ts (index_of (get_new_prio (pos 120) 0)) ++ 1 ∷ [])
    × ((rq.task rq.curr).need_resched ≡ true)
tick_expires_example = tick_expires two_tasks 1 refl refl

enqueue-IsWellQueued_example :
    (enqueue_task_ts two_tasks 3 0
      ≡ some (record two_tasks { ts = push_back 3 (pos 120) two_tasks.ts }))
    × IsWellQueued (record two_tasks { ts = push_back 3 (pos 120) two_tasks.ts })
enqueue-IsWellQueued_example =
    enqueue-IsWellQueued two_tasks 3 0 refl (ground arith) two_tasks-IsWellQueued
      (λ i lt. ground arith)

-- Task 1 is queued at the priority 120, and task 3 wakes at the priority 125.
abbrev mixed : Rq
mixed = rq_of 1 (update (λ i. []) 19 (1 ∷ [])) (
    update (λ p. task_of sched_ts ts_sched_class (pos 120) 1) 3
      (task_of sched_ts ts_sched_class (pos 125) 1))

wakes_better : pos_part (get_new_prio (pos 125) 1) < 120
unfolding get_new_prio
wakes_better = ground arith

wakeup_inversion_example :
    (rq : Rq) × (enqueue_task_ts mixed 3 1 ≡ some rq)
    × ((pick_next_task_ts (λ s q. s) rq 0).0 ≡ some 1)
    × (pos_part (prio_of rq 3) < pos_part (prio_of rq 1))
wakeup_inversion_example =
    wakeup_inversion (λ s q. s) mixed 3 1 1 0 19 [] refl (ground arith) (ground arith)
      (ground arith) refl (ground arith) (ground arith) wakes_better refl
      (λ k above lt. ground arith)

-- A runqueue as `init_ts_rq` leaves it, and the task 3 enqueued.
abbrev fresh : Rq
fresh = rq_of 1 (init_ts_rq (λ i. 9 ∷ [])) (λ p. task_of sched_ts ts_sched_class (pos 120) 4)

abbrev filled : Rq
filled = record fresh { ts = push_back 3 (pos 120) (init_ts_rq (λ i. 9 ∷ [])) }

fresh-IsUnqueued : IsUnqueued 3 fresh.ts
fresh-IsUnqueued i lt = rw ((init_ts_rq_lem (λ i. 9 ∷ []) (prio_of fresh)).0 i lt) refl

fill_run : enqueue_task_ts fresh 3 0 ≡ some filled
unfolding enqueue_task_ts
fill_run = refl

pick_run : (pick_next_task_ts (λ rq q. rq) filled 1).0 ≡ some 3
unfolding pick_next_task_ts first_entry init_ts_rq
pick_run = refl

Reach-pick_next_task_ts_example :
    ((i q : ℕ) → i < 40 → 0 < count q (filled.ts i) → pos 120 ≤ℤ pos 120)
    × ((rest : List ℕ) × (filled.ts 19 ≡ 3 ∷ rest))
    × IsWellQueued filled
Reach-pick_next_task_ts_example =
    Reach-pick_next_task_ts (λ rq q. rq) fresh filled (λ i. 9 ∷ []) 1 3 refl
      (next here (enqueues fresh filled 3 0 refl (ground arith) fresh-IsUnqueued fill_run)) pick_run

two_tasks-IsReady : IsReady (two_tasks.task 1)
two_tasks-IsReady = record {
  class = refl;
  policy = refl;
  prio = ground arith;
  slice = omega arith;
  small = omega arith;
}

ticks-lowest_example :
    (rq : Rq) × (ticks no_load 40 two_tasks ≡ some rq) × (rq.curr ≡ 1) × (prio_of rq 1 ≡ pos 139)
ticks-lowest_example = ticks-lowest no_load 40 two_tasks two_tasks-IsReady (omega arith)
