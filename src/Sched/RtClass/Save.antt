-- ===== src/Sched/RtClass/Save.antt =====
-- A change of a task's attributes that keeps its place: DEQUEUE_SAVE without DEQUEUE_MOVE, then
-- ENQUEUE_RESTORE without ENQUEUE_MOVE (kernel/sched/rt.c).
use kernel_programming.Prelude.{
  ℕ, ◌^◌, ◌<◌, ◌≡◌, refl, arith, Bool, true, false, some, count, ◌∙◌, ◌>>=◌, if◌then◌else◌,
}
use kernel_programming.Prelude.Int.{pos}
use kernel_programming.Sched.{Rq, set_task, has_flag, enqueue_wakeup}
use kernel_programming.Sched.Frame.{prio_of}
use kernel_programming.Sched.Rt.{
  RtEnv, dequeue_top_rt_rq, enqueue_top_rt_rq, update_curr_rt, dequeue_rt_stack, enqueue_rt_entity,
  dequeue_rt_entity, move_entity,
}
use kernel_programming.Sched.Rt.Active.{FindsFirst, IsActive, total}
use kernel_programming.Sched.Rt.Frame.{
  IsSameRt, IsSameRt-trans, dequeue_top-IsSameRt, enqueue_top-IsSameRt, IsActive-IsSameRt,
  update_curr_rt-IsSameRt,
}
use kernel_programming.Sched.RtClass.{enqueue_task_rt, dequeue_task_rt}
use kernel_programming.Sched.RtClass.Pause.{
  paused, resumed, dequeue_entity_lem, enqueue_entity_lem, resumed-IsSameRt,
}

module _ (env : RtEnv) (first : FindsFirst env.find_first_bit) (p i : ℕ) (lt : i < 100) where
  paused_off : (rq : Rq) → ((paused env first p i lt rq).task p).rt_on_rq ≡ false
  paused_off rq = ground arith

  paused_prio : (rq : Rq) (q : ℕ) → prio_of (paused env first p i lt rq) q ≡ prio_of rq q
  paused_prio rq q = ground arith

  -- The runqueue between the two operations.
  abbrev saved : Rq → Rq
  saved rq = enqueue_top_rt_rq (paused env first p i lt (dequeue_top_rt_rq (update_curr_rt env rq)))

  dequeue_task_rt_lem :
      (rq : Rq) (flags : ℕ)
      → move_entity flags ≡ false
      → (rq.task p).rt_on_rq ≡ true
      → prio_of rq p ≡ pos i
      → dequeue_task_rt env rq p flags ≡ some (saved rq)
  unfolding dequeue_task_rt dequeue_rt_entity dequeue_rt_stack
  dequeue_task_rt_lem rq flags stays on e =
      let u = update_curr_rt env rq in
      let s =
        IsSameRt-trans rq u (dequeue_top_rt_rq u) (update_curr_rt-IsSameRt env rq)
          (dequeue_top-IsSameRt u) in
      rw
        (
          s.listed p,
          on,
          dequeue_entity_lem env first p i lt (dequeue_top_rt_rq u) flags stays (s.prio p ∙ e),
        )
        refl

  abbrev rested : Bool → Rq → Rq
  rested wakes rq = if wakes then set_task rq p (record (rq.task p) { rt_timeout = 0 }) else rq

  rested-IsSameRt : (wakes : Bool) (rq : Rq) → IsSameRt rq (rested wakes rq)
  rested-IsSameRt wakes rq = record {
    queue = ground arith;
    bitmap = ground arith;
    highest = ground arith;
    running = ground arith;
    prio = λ q. ground arith;
    listed = λ q. ground arith;
  }

  enqueue_rt_entity_lem :
      (rq : Rq) (flags : ℕ)
      → move_entity flags ≡ false
      → (rq.task p).rt_on_rq ≡ false
      → prio_of rq p ≡ pos i
      → enqueue_rt_entity env rq p flags
        ≡ some (enqueue_top_rt_rq (resumed env first p i lt (dequeue_top_rt_rq rq)))
  unfolding enqueue_rt_entity dequeue_rt_stack
  enqueue_rt_entity_lem rq flags stays off e =
      let s = dequeue_top-IsSameRt rq in
      rw
        (
          s.listed p,
          off,
          enqueue_entity_lem env first p i lt (dequeue_top_rt_rq rq) flags stays (s.prio p ∙ e),
        )
        refl

  enqueue_task_rt_lem :
      (rq : Rq) (flags : ℕ)
      → move_entity flags ≡ false
      → (rq.task p).rt_on_rq ≡ false
      → prio_of rq p ≡ pos i
      → enqueue_task_rt env rq p flags
        ≡ some (
            enqueue_top_rt_rq (
              resumed env first p i lt
                (dequeue_top_rt_rq (rested (has_flag flags enqueue_wakeup) rq))))
  unfolding enqueue_task_rt
  enqueue_task_rt_lem rq flags stays off e =
      let s = rested-IsSameRt (has_flag flags enqueue_wakeup) rq in
      enqueue_rt_entity_lem (rested (has_flag flags enqueue_wakeup) rq) flags stays
        (s.listed p ∙ off) (s.prio p ∙ e)

  -- A dequeue that saves a task without moving it, and the enqueue that restores it, leave the
  -- array, its bitmap, the highest priority, the count of tasks and the place and priority of every
  -- task as they were.
  pub dequeue_task_rt-enqueue_task_rt :
      (rq : Rq) (save restore : ℕ)
      → move_entity save ≡ false
      → move_entity restore ≡ false
      → IsActive env.find_first_bit rq.rt (prio_of rq)
      → (rq.task p).rt_on_rq ≡ true
      → prio_of rq p ≡ pos i
      → 0 < count p (rq.rt.queue i)
      → total 100 rq.rt.queue < 2 ^ 32
      → (rq' : Rq) × ((dequeue_task_rt env rq p save >>= λ x. enqueue_task_rt env x p restore)
          ≡ some rq')
        × IsSameRt rq rq'
  unfolding enqueue_task_rt dequeue_task_rt enqueue_rt_entity dequeue_rt_entity dequeue_rt_stack
  dequeue_task_rt-enqueue_task_rt rq save restore ds es v on e c few =
      let u = update_curr_rt env rq in
      let d = dequeue_top_rt_rq u in
      let wakes = has_flag restore enqueue_wakeup in
      let y = dequeue_top_rt_rq (rested wakes (saved rq)) in
      let s = IsSameRt-trans rq u d (update_curr_rt-IsSameRt env rq) (dequeue_top-IsSameRt u) in
      let between =
        IsSameRt-trans (paused env first p i lt d) (saved rq) _
          (enqueue_top-IsSameRt (paused env first p i lt d)) (rested-IsSameRt wakes (saved rq)) in
      let s' = IsSameRt-trans (paused env first p i lt d) _ y between (dequeue_top-IsSameRt _) in
      let back =
        resumed-IsSameRt env first p i lt d y (IsActive-IsSameRt env.find_first_bit rq d s v)
          (rw s.queue c) (rw s.queue few) (s.listed p ∙ on) s' in
      let out = (enqueue_top-IsSameRt (paused env first p i lt d)) in
      (
        enqueue_top_rt_rq (resumed env first p i lt y),
        rw (dequeue_task_rt_lem rq save ds on e) (
            enqueue_task_rt_lem (saved rq) restore es (out.listed p ∙ paused_off d)
              (out.prio p ∙ paused_prio d p ∙ s.prio p ∙ e)),
        IsSameRt-trans rq d _ s (
            IsSameRt-trans d (resumed env first p i lt y) _ back
              (enqueue_top-IsSameRt (resumed env first p i lt y))),
      )
