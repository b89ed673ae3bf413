-- ===== src/Sched/RtClass/Keep.antt =====
-- The operations that put a task on the real-time queue and take it off keep it well formed
-- (kernel/sched/rt.c).
use kernel_programming.Prelude.Int.{pos}
use kernel_programming.Sched.{Rq, has_flag, enqueue_head, set_task, enqueue_wakeup}
use kernel_programming.Sched.Frame.{prio_of}
use kernel_programming.Sched.Rt.{
  RtEnv, dequeue_top_rt_rq, enqueue_top_rt_rq, enqueue_rt_entity, move_entity, enlist_list,
}
use kernel_programming.Sched.Rt.Active.{FindsFirst, IsUnlisted, total}
use kernel_programming.Sched.Rt.Frame.{
  dequeue_top-IsSameRt, enqueue_top-IsSameRt, IsActive-IsSameRt, off_queue, others,
  dequeue_top-others,
}
use kernel_programming.Sched.RtClass.{enqueue_task_rt}
use kernel_programming.Sched.RtClass.Queue.{
  IsRtQueued, entered, enqueue_rt_entity_lem, entered-IsActive, entered-IsCounted, entered_queue,
  same_prio-IsActive,
}
use kernel_programming.Prelude.{
  ℕ, ◌+◌, ◌^◌, ◌<◌, ◌≡◌, arith, true, false, some, refl, ◌∙◌, Bool-cases, inl, inr,
}

module _ (env : RtEnv) (first : FindsFirst env.find_first_bit) (p i flags : ℕ) (lt : i < 100)
    (moves : move_entity flags ≡ true) where
  abbrev rested : Rq → Rq
  rested rq = set_task rq p (record (rq.task p) { rt_timeout = 0 })

  rested-IsRtQueued :
      (rq : Rq) → IsRtQueued env.find_first_bit rq → IsRtQueued env.find_first_bit (rested rq)
  rested-IsRtQueued rq v = record {
    active = same_prio-IsActive env.find_first_bit rq (rested rq) (λ q. ground arith) v.active;
    counts = record {
      counted = v.counts.counted;
      offered = v.counts.offered;
      paused = v.counts.paused;
      small = v.counts.small;
    };
  }

  enqueue_rt_entity-IsRtQueued :
      (rq : Rq)
      → IsRtQueued env.find_first_bit rq
      → (rq.task p).rt_on_rq ≡ false
      → prio_of rq p ≡ pos i
      → IsUnlisted p rq.rt
      → others rq + total 100 rq.rt.queue + 1 < 2 ^ 32
      → (rq' : Rq) × (enqueue_rt_entity env rq p flags ≡ some rq')
        × IsRtQueued env.find_first_bit rq'
        × (rq'.rt.queue i ≡ enlist_list (has_flag flags enqueue_head) p (rq.rt.queue i))
        × (others rq' ≡ others rq)
  enqueue_rt_entity-IsRtQueued rq v off e u few =
      let d = dequeue_top_rt_rq rq in
      let s = dequeue_top-IsSameRt rq in
      let v' = IsActive-IsSameRt env.find_first_bit rq d s v.active in
      let s' = enqueue_top-IsSameRt (entered env first p i flags lt moves d) in
      let fewer : total 100 d.rt.queue + 1 < 2 ^ 32 = rw s.queue (omega (arith, few)) in
      let u' : IsUnlisted p d.rt = λ j l. rw s.queue (u j l) in
      let a = entered-IsActive env first p i flags lt moves d v' (s.prio p ∙ e) u' fewer in
      let c =
        entered-IsCounted env first p i flags lt moves d (off_queue rq) v'.running
          (rw (s.queue, dequeue_top-others rq v.counts) few) in
      (
        enqueue_top_rt_rq (entered env first p i flags lt moves d),
        enqueue_rt_entity_lem env first p i flags lt moves rq off e,
        record {
          active =
              IsActive-IsSameRt env.find_first_bit (entered env first p i flags lt moves d) _ s' a;
          counts = c.0;
        },
        rw (s'.queue, entered_queue env first p i flags lt moves d, s.queue) refl,
        c.1 ∙ dequeue_top-others rq v.counts,
      )

  -- When the flags move the task (they are not a restoring without a move), a task of a real-time
  -- priority that is on no list may be enqueued, waking or not, at either end: the operation
  -- succeeds, the array, the counts and the highest priority stay right, the task is at the end of
  -- the list that ENQUEUE_HEAD names, and the tasks of the other classes are counted as before.
  pub enqueue_task_rt-IsRtQueued :
      (rq : Rq)
      → IsRtQueued env.find_first_bit rq
      → (rq.task p).rt_on_rq ≡ false
      → prio_of rq p ≡ pos i
      → IsUnlisted p rq.rt
      → others rq + total 100 rq.rt.queue + 1 < 2 ^ 32
      → (rq' : Rq) × (enqueue_task_rt env rq p flags ≡ some rq')
        × IsRtQueued env.find_first_bit rq'
        × (rq'.rt.queue i ≡ enlist_list (has_flag flags enqueue_head) p (rq.rt.queue i))
        × (others rq' ≡ others rq)
  unfolding enqueue_task_rt
  enqueue_task_rt-IsRtQueued rq v off e u few = elim (Bool-cases (has_flag flags enqueue_wakeup)) [
    | inl wakes ↦ rw wakes (
        enqueue_rt_entity-IsRtQueued (rested rq) (rested-IsRtQueued rq v) (ground arith)
          (ground arith) u few)
    | inr other ↦ rw other (enqueue_rt_entity-IsRtQueued rq v off e u few)
  ]
