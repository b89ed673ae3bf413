-- ===== src/Sched/Frame.antt =====
-- What `resched_curr` (kernel/sched/core.c) and a write to one task leave as they were.
use kernel_programming.Prelude.{ℕ, ◌≡◌, ◌≢◌, arith, true}
use kernel_programming.Prelude.Int.{ℤ}
use kernel_programming.Sched.{Rq, Task, set_task, resched_curr}

abbrev pub prio_of : Rq → ℕ → ℤ
prio_of rq p = (rq.task p).prio

pub prio_of-set_task : (rq : Rq) (p : ℕ) (t : Task) → prio_of (set_task rq p t) p ≡ t.prio
prio_of-set_task rq p t = ground arith

pub prio_of-set_task_ne :
    (rq : Rq) (p q : ℕ) (t : Task) → p ≢ q → prio_of (set_task rq p t) q ≡ prio_of rq q
prio_of-set_task_ne rq p q t ne = ground arith

pub ts-resched_curr : (rq : Rq) → (resched_curr rq).ts ≡ rq.ts
unfolding resched_curr
ts-resched_curr rq = ground arith

pub curr-resched_curr : (rq : Rq) → (resched_curr rq).curr ≡ rq.curr
unfolding resched_curr
curr-resched_curr rq = ground arith

pub prio_of-resched_curr : (rq : Rq) (p : ℕ) → prio_of (resched_curr rq) p ≡ prio_of rq p
unfolding resched_curr
prio_of-resched_curr rq p = ground arith

pub need_resched-resched_curr : (rq : Rq) → ((resched_curr rq).task rq.curr).need_resched ≡ true
unfolding resched_curr
need_resched-resched_curr rq = ground arith

pub time_slice-resched_curr :
    (rq : Rq) (p : ℕ) → ((resched_curr rq).task p).time_slice ≡ (rq.task p).time_slice
unfolding resched_curr
time_slice-resched_curr rq p = ground arith
