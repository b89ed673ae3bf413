-- ===== src/Sched/RtClass.antt =====
-- kernel/sched/rt.c, the operations of `rt_sched_class` and the timer of the bandwidth, over the
-- entities of `Sched.Rt`.
pub mod Queue
pub mod Keep
pub mod Pick
pub mod Pause
pub mod Save
pub mod Throttle
pub mod Timer
pub mod Tick
pub mod Init
use kernel_programming.Prelude.{
  ℕ, zero, suc, ◌*◌, ◌+◌, ◌-◌, ◌%◌, ◌^◌, Bool, true, false, not, List, [], ◌∷◌, ◌++◌, Option, none,
  some, ltb, leb, ◌==◌, if◌then◌else◌, ◌&&◌, ◌||◌, ◌>>=◌, remove, min,
}
use kernel_programming.Prelude.Int.{pos_part, ℤ, pos, negsuc, ltb_ℤ}
use kernel_programming.Sched.{
  Rq, RtRq, Task, update, set_task, has_flag, max_rt_prio, sched_rr, resched_curr, enqueue_wakeup,
  enqueue_head, rt_sched_class,
}
use kernel_programming.Sched.Ts.{list_del}
use kernel_programming.Sched.Class.{ClassOps, Picked, retry, nothing, bugged, picked, same_class}
use kernel_programming.Sched.Rt.{
  runtime_inf, RtEnv, rt_index, sub_u32, is_rr, enqueue_rt_entity, dequeue_rt_entity,
  update_curr_rt, enqueue_top_rt_rq, enlist_list,
}

module _ (env : RtEnv) where
  unfoldable pub enqueue_task_rt : Rq → ℕ → ℕ → Option Rq
  unfolding enqueue_rt_entity
  enqueue_task_rt rq p flags =
      let rested = set_task rq p (record (rq.task p) { rt_timeout = 0 }) in
      enqueue_rt_entity env (if has_flag flags enqueue_wakeup then rested else rq) p flags

  unfoldable pub dequeue_task_rt : Rq → ℕ → ℕ → Option Rq
  unfolding update_curr_rt dequeue_rt_entity
  dequeue_task_rt rq p flags = dequeue_rt_entity env (update_curr_rt env rq) p flags

  -- `requeue_task_rt`, with `requeue_rt_entity`.
  unfoldable pub requeue_task_rt : Rq → ℕ → Bool → Option Rq
  unfolding enlist_list
  requeue_task_rt rq p head =
      let queue = list_del p rq.rt.queue in
      if not (rq.task p).rt_on_rq then some rq else do
        i ← rt_index (rq.task p).prio
        some (record rq {
          rt = record rq.rt { queue = update queue i (enlist_list head p (queue i)) };
        })

  unfoldable pub yield_task_rt : Rq → Option Rq
  unfolding requeue_task_rt
  yield_task_rt rq = requeue_task_rt rq rq.curr false

  -- `check_preempt_equal_prio` has no other CPU.
  unfoldable pub check_preempt_curr_rt : Rq → ℕ → ℕ → Rq
  unfolding resched_curr
  check_preempt_curr_rt rq p flags =
      if ltb_ℤ (rq.task p).prio (rq.task rq.curr).prio then resched_curr rq else rq

  abbrev head_picked : List ℕ → Picked
  head_picked [] = bugged
  head_picked (p ∷ _) = picked p

  -- `_pick_next_task_rt`, with `pick_next_rt_entity`. An empty list under a bit that is set gives no
  -- task.
  unfoldable pub pick_next_rt_entity : RtRq → Picked
  pick_next_rt_entity rt =
      let idx = env.find_first_bit rt.bitmap in
      if leb max_rt_prio idx then bugged else head_picked (rt.queue idx)

  -- `rq->stop && task_on_rq_queued(rq->stop)`
  abbrev stop_queued : Rq → Bool
  stop_queued rq = elim rq.stop [ none ↦ false | some q ↦ (rq.task q).on_rq == 1 ]

  -- `pull_rt_task` has no other CPU to pull from.
  unfoldable pub pick_next_task_rt : (Rq → ℕ → Rq) → Rq → ℕ → Picked × Rq
  unfolding update_curr_rt pick_next_rt_entity
  pick_next_task_rt put_prev_task rq prev =
      let t = rq.task prev in
      let pulls = ltb_ℤ t.prio (pos rq.rt.highest_prio) in
      let rq' = if same_class t.sched_class rt_sched_class then update_curr_rt env rq else rq in
      let rq'' = put_prev_task rq' prev in
      if pulls && (stop_queued rq || not (rq.dl_nr_running == 0))
      then (retry, rq)
      else if not rq'.rt.rt_queued
      then (nothing, rq')
      else (pick_next_rt_entity rq''.rt, rq'')

  unfoldable pub put_prev_task_rt : Rq → ℕ → Rq
  unfolding update_curr_rt
  put_prev_task_rt rq p = update_curr_rt env rq

  -- `cputime_expires` is not modelled.
  unfoldable pub watchdog : ℕ → Task → Task
  watchdog p t =
      if not (env.has_rttime p) || t.watchdog_stamp == env.jiffies
      then t
      else record t { rt_timeout = (t.rt_timeout + 1) % 2 ^ 64; watchdog_stamp = env.jiffies }

  -- `run_list.prev != run_list.next`: the list has another task.
  abbrev is_shared : List ℕ → Bool
  is_shared (_ ∷ _ ∷ _) = true
  is_shared _ = false

  -- What follows when the slice of a round-robin task has ended.
  abbrev pub rotate : Rq → ℕ → Option Rq
  unfolding requeue_task_rt resched_curr
  rotate rq p = do
    i ← rt_index (rq.task p).prio
    if not (is_shared (rq.rt.queue i))
        then some rq
        else do rq' ← requeue_task_rt rq p false; some (resched_curr rq')

  unfoldable pub task_tick_rt : Rq → ℕ → Option Rq
  unfolding update_curr_rt watchdog requeue_task_rt resched_curr
  task_tick_rt rq p =
      let rq' = update_curr_rt env rq in
      let t = watchdog p (rq'.task p) in
      let slice = sub_u32 t.rt_time_slice 1 in
      if not (is_rr t)
      then some (set_task rq' p t)
      else if not (slice == 0)
      then some (set_task rq' p (record t { rt_time_slice = slice }))
      else rotate (set_task rq' p (record t { rt_time_slice = env.rr_timeslice })) p

  unfoldable pub get_rr_interval_rt : Rq → ℕ → ℕ
  get_rr_interval_rt rq p = if is_rr (rq.task p) then env.rr_timeslice else 0

  -- `switched_to_rt` on a CPU that is online.
  unfoldable pub switched_to_rt : Rq → ℕ → Rq
  unfolding resched_curr
  switched_to_rt rq p =
      if (rq.task p).on_rq == 1
        && not (rq.curr == p)
        && ltb_ℤ (rq.task p).prio (rq.task rq.curr).prio
      then resched_curr rq
      else rq

  unfoldable pub prio_changed_rt : Rq → ℕ → ℤ → Rq
  unfolding resched_curr
  prio_changed_rt rq p oldprio =
      let prio = (rq.task p).prio in
      let preempts =
        if rq.curr == p
        then ltb_ℤ (pos rq.rt.highest_prio) prio
        else ltb_ℤ prio (rq.task rq.curr).prio in
      if (rq.task p).on_rq == 1 && preempts then resched_curr rq else rq

  -- `rt_sched_class`; `set_curr_task_rt` writes the clock and the pushable tasks, and
  -- `switched_from_rt` asks to pull tasks from other CPUs.
  abbrev pub rt_ops : ClassOps
  rt_ops = record {
    enqueue_task = enqueue_task_rt;
    dequeue_task = dequeue_task_rt;
    yield_task = yield_task_rt;
    check_preempt_curr = check_preempt_curr_rt;
    pick_next_task = pick_next_task_rt;
    put_prev_task = put_prev_task_rt;
    set_curr_task = λ rq. rq;
    task_tick = task_tick_rt;
    switched_from = λ rq p. rq;
    switched_to = switched_to_rt;
    prio_changed = prio_changed_rt;
  }

  -- `sched_rt_rq_enqueue`
  unfoldable pub sched_rt_rq_enqueue : Rq → Rq
  unfolding enqueue_top_rt_rq resched_curr
  sched_rt_rq_enqueue rq =
      if rq.rt.rt_nr_running == 0 then rq else resched_curr (enqueue_top_rt_rq rq)

  -- What is left of `rt_time` after `overrun` periods.
  abbrev pub time_left : RtRq → ℕ → ℕ
  time_left rt overrun = rt.rt_time - min rt.rt_time (overrun * rt.rt_runtime % 2 ^ 64)

  -- The last test of `do_sched_rt_period_timer`: the class is not throttled and its time is not
  -- bounded.
  abbrev pub has_no_bound : Bool → Bool
  has_no_bound throttled =
      not throttled && (not env.bandwidth_enabled || env.def_runtime == runtime_inf)

  -- The round of its loop for the one CPU, with the feature RT_RUNTIME_SHARE: whether the CPU is idle,
  -- and the runqueue.
  unfoldable pub timer_round : Rq → ℕ → Bool × Rq
  unfolding sched_rt_rq_enqueue
  timer_round rq overrun =
      let rt = rq.rt in
      let left = time_left rt overrun in
      let over = rt.rt_throttled && ltb left rt.rt_runtime in
      let rq' = record rq {
        rt = record rt { rt_time = left; rt_throttled = rt.rt_throttled && not over };
      } in
      if rt.rt_time == 0 && rt.rt_nr_running == 0
      then (true, rq)
      else if rt.rt_time == 0
      then (false, if rt.rt_throttled then rq else sched_rt_rq_enqueue rq)
      else (left == 0 && rt.rt_nr_running == 0, if over then sched_rt_rq_enqueue rq' else rq')

  -- `do_sched_rt_period_timer` with one CPU: whether the timer may rest, and the runqueue. A CPU that
  -- the loop skips is idle, so it does not matter whether it is throttled.
  unfoldable pub period_timer : Rq → ℕ → Bool × Rq
  unfolding timer_round
  period_timer rq overrun =
      let (idle, rq') = timer_round rq overrun in (idle || has_no_bound rq'.rt.rt_throttled, rq')
