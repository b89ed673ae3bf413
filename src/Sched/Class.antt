-- ===== src/Sched/Class.antt =====
-- kernel/sched/core.c, the calls into the scheduling classes. The stop, deadline, fair and idle
-- classes, whose sources the repository does not hold, are arguments, and so is the real-time class,
-- for which `rt_ops` of `Sched.RtClass` may stand; so are `reweight_task` and
-- `task_contributes_to_load`. The time-sharing class is that of `Sched.Ts`. Clocks, statistics and
-- locks are not modelled.

use kernel_programming.Prelude.{
  ℕ, ◌+◌, ◌-◌, ◌%◌, ◌^◌, Bool, not, List, [], ◌∷◌, Option, none, some, ◌==◌, if◌then◌else◌, ◌||◌,
}
use kernel_programming.Prelude.Int.{ℤ, pos_part, neg_part}
use kernel_programming.Sched.{
  Rq, Task, SchedClass, stop_sched_class, dl_sched_class, rt_sched_class, ts_sched_class,
  fair_sched_class, idle_sched_class, resched_curr, dl_prio,
}
use kernel_programming.Sched.Ts.{
  enqueue_task_ts, dequeue_task_ts, yield_task_ts, check_preempt_curr_ts, pick_next_task_ts,
  put_prev_task_ts, set_curr_task_ts, task_tick_ts,
}

-- What `pick_next_task` of a class returns: RETRY_TASK, NULL, a task, or nothing after a BUG().
pub data Picked : Type 0 where
  retry nothing bugged : Picked
  picked : ℕ → Picked

-- `struct sched_class`, as far as core.c calls it here. `put_prev_task` of the previous task's class
-- is handed to `pick_next_task`. A fault is `none`.
pub record ClassOps : Type 0 where
  pub enqueue_task : Rq → ℕ → ℕ → Option Rq
  pub dequeue_task : Rq → ℕ → ℕ → Option Rq
  pub yield_task : Rq → Option Rq
  pub check_preempt_curr : Rq → ℕ → ℕ → Rq
  pub pick_next_task : (Rq → ℕ → Rq) → Rq → ℕ → Picked × Rq
  pub put_prev_task : Rq → ℕ → Rq
  pub set_curr_task : Rq → Rq
  pub task_tick : Rq → ℕ → Option Rq
  pub switched_from : Rq → ℕ → Rq
  pub switched_to : Rq → ℕ → Rq
  pub prio_changed : Rq → ℕ → ℤ → Rq

-- What the repository does not implement.
pub record External : Type 0 where
  pub class : SchedClass → ClassOps
  pub reweight_task : Task → ℤ → Task
  pub contributes_to_load : Task → Bool
  pub scale_load : ℕ → ℕ
  pub task_fork : SchedClass → Task → Task
  pub dl_entity_preempt : Task → Task → Bool
  pub signal_pending_state : ℕ → Task → Bool
  pub sched_rr_timeslice : ℕ

abbrev pub to_picked : Option ℕ × Rq → Picked × Rq
to_picked (none, rq) = (nothing, rq)
to_picked (some p, rq) = (picked p, rq)

-- `ts_sched_class`; the members that ts.c leaves empty or unset do nothing.
abbrev pub ts_ops : ClassOps
ts_ops = record {
  enqueue_task = enqueue_task_ts;
  dequeue_task = λ rq p flags. some (dequeue_task_ts rq p flags);
  yield_task = yield_task_ts;
  check_preempt_curr = check_preempt_curr_ts;
  pick_next_task = λ put rq prev. to_picked (pick_next_task_ts put rq prev);
  put_prev_task = put_prev_task_ts;
  set_curr_task = set_curr_task_ts;
  task_tick = task_tick_ts;
  switched_from = λ rq p. rq;
  switched_to = λ rq p. rq;
  prio_changed = λ rq p old. rq;
}

abbrev pub ops_of : (SchedClass → ClassOps) → SchedClass → ClassOps
ops_of class stop_sched_class = class stop_sched_class
ops_of class dl_sched_class = class dl_sched_class
ops_of class rt_sched_class = class rt_sched_class
ops_of class ts_sched_class = ts_ops
ops_of class fair_sched_class = class fair_sched_class
ops_of class idle_sched_class = class idle_sched_class

-- The place of a class in the order of `for_each_class`.
abbrev pub rank : SchedClass → ℕ
rank stop_sched_class = 0
rank dl_sched_class = 1
rank rt_sched_class = 2
rank ts_sched_class = 3
rank fair_sched_class = 4
rank idle_sched_class = 5

abbrev pub same_class : SchedClass → SchedClass → Bool
same_class a b = rank a == rank b

-- `for_each_class` on SMP.
abbrev pub classes : List SchedClass
classes =
    stop_sched_class ∷ dl_sched_class ∷ rt_sched_class ∷ ts_sched_class ∷ fair_sched_class
    ∷ idle_sched_class ∷ []

-- The loop of `check_preempt_curr`: which class of the two comes first.
unfoldable pub preempt_loop : SchedClass → SchedClass → List SchedClass → Rq → Rq
preempt_loop of_curr of_p [] rq = rq
preempt_loop of_curr of_p (class ∷ rest) rq =
    let next = preempt_loop of_curr of_p rest rq in
    if same_class class of_curr then rq else if same_class class of_p then resched_curr rq else next

module _ (ext : External) where
  abbrev pub class_ops : SchedClass → ClassOps
  class_ops c = ops_of ext.class c

  abbrev pub class_of : Rq → ℕ → SchedClass
  class_of rq p = (rq.task p).sched_class

  unfoldable pub enqueue_task : Rq → ℕ → ℕ → Option Rq
  enqueue_task rq p flags = (class_ops (class_of rq p)).enqueue_task rq p flags

  unfoldable pub dequeue_task : Rq → ℕ → ℕ → Option Rq
  dequeue_task rq p flags = (class_ops (class_of rq p)).dequeue_task rq p flags

  unfoldable pub put_prev_task : Rq → ℕ → Rq
  put_prev_task rq p = (class_ops (class_of rq p)).put_prev_task rq p

  unfoldable pub set_curr_task : Rq → ℕ → Rq
  set_curr_task rq p = (class_ops (class_of rq p)).set_curr_task rq

  -- `nr_uninterruptible` is an unsigned long.
  unfoldable pub activate_task : Rq → ℕ → ℕ → Option Rq
  unfolding enqueue_task
  activate_task rq p flags =
      let less = record rq { nr_uninterruptible = (rq.nr_uninterruptible + 2 ^ 64 - 1) % 2 ^ 64 } in
      enqueue_task (if ext.contributes_to_load (rq.task p) then less else rq) p flags

  unfoldable pub deactivate_task : Rq → ℕ → ℕ → Option Rq
  unfolding dequeue_task
  deactivate_task rq p flags =
      let more = record rq { nr_uninterruptible = (rq.nr_uninterruptible + 1) % 2 ^ 64 } in
      dequeue_task (if ext.contributes_to_load (rq.task p) then more else rq) p flags

  abbrev pub same_prio : ℤ → ℤ → Bool
  same_prio a b = pos_part a + neg_part b == pos_part b + neg_part a

  -- `dl_task(p)` is a test of its priority.
  unfoldable pub check_class_changed : Rq → ℕ → SchedClass → ℤ → Rq
  check_class_changed rq p prev_class oldprio =
      let now = class_ops (class_of rq p) in
      if not (same_class prev_class (class_of rq p))
      then now.switched_to ((class_ops prev_class).switched_from rq p) p
      else if not (same_prio oldprio (rq.task p).prio) || dl_prio (rq.task p).prio
      then now.prio_changed rq p oldprio
      else rq

  unfoldable pub check_preempt_curr : Rq → ℕ → ℕ → Rq
  unfolding preempt_loop
  check_preempt_curr rq p flags =
      if same_class (class_of rq p) (class_of rq rq.curr)
      then (class_ops (class_of rq rq.curr)).check_preempt_curr rq p flags
      else preempt_loop (class_of rq rq.curr) (class_of rq p) classes rq
