-- ===== src/Sched/RtClass/Queue.antt =====
-- Tasks enter and leave the real-time class (kernel/sched/rt.c).
use kernel_programming.Prelude.{
  ℕ, ◌+◌, ◌^◌, ◌<◌, ◌≡◌, refl, sym, subst, fun_ext, arith, Bool, true, false, some, count, ◌∙◌,
  remove,
}
use kernel_programming.Prelude.Int.{pos}
use kernel_programming.Sched.{Rq, set_task, has_flag, enqueue_head}
use kernel_programming.Sched.Frame.{prio_of}
use kernel_programming.Sched.Rt.{
  RtEnv, enqueue_top_rt_rq, enqueue_entity, dequeue_entity, move_entity, enlist, delist,
  inc_rt_tasks, dec_rt_tasks, is_rr, enqueue_rt_entity, dequeue_rt_entity, dequeue_rt_stack,
  dequeue_top_rt_rq, enlist_list,
}
use kernel_programming.Sched.Rt.Active.{FindsFirst, IsActive, IsUnlisted, total, enlist-IsActive}
use kernel_programming.Sched.Rt.Delist.{delist-IsActive}
use kernel_programming.Sched.Rt.Frame.{
  IsCounted, others, enqueue_top-IsCounted, enqueue_top-others, dequeue_top-IsSameRt, rt_index_lem,
}

-- What holds of the real-time tasks between two operations.
pub record IsRtQueued (find : (ℕ → Bool) → ℕ) (rq : Rq) : Type 0 where
  pub active : IsActive find rq.rt (prio_of rq)
  pub counts : IsCounted rq

pub same_prio-IsActive :
    (find : (ℕ → Bool) → ℕ) (rq rq' : Rq)
    → ((q : ℕ) → prio_of rq' q ≡ prio_of rq q)
    → IsActive find rq'.rt (prio_of rq)
    → IsActive find rq'.rt (prio_of rq')
same_prio-IsActive find rq rq' same v =
    subst (λ f. IsActive find rq'.rt f) (fun_ext (λ q. sym (same q))) v

module _ (env : RtEnv) (first : FindsFirst env.find_first_bit) (p i flags : ℕ) (lt : i < 100)
    (moves : move_entity flags ≡ true) where
  -- The runqueue with the task on the list of its priority.
  abbrev pub entered : Rq → Rq
  entered rq =
      let t = rq.task p in
      set_task
        (record rq {
          rt = inc_rt_tasks (is_rr t) i (enlist (has_flag flags enqueue_head) p i rq.rt);
        })
        p (record t { rt_on_list = true; rt_on_rq = true })

  -- The runqueue with the task off its list.
  abbrev pub left : Rq → Rq
  left rq =
      let t = rq.task p in
      set_task (record rq { rt = dec_rt_tasks env (is_rr t) i (delist p i rq.rt) }) p
        (record t { rt_on_list = false; rt_on_rq = false })

  enqueue_entity_lem :
      (rq : Rq) → prio_of rq p ≡ pos i → enqueue_entity env rq p flags ≡ some (entered rq)
  unfolding enqueue_entity
  enqueue_entity_lem rq e = rw (e, rt_index_lem i lt, moves) refl

  dequeue_entity_lem :
      (rq : Rq) → prio_of rq p ≡ pos i → dequeue_entity env rq p flags ≡ some (left rq)
  unfolding dequeue_entity
  dequeue_entity_lem rq e = rw (e, rt_index_lem i lt, moves) refl

  pub entered-IsActive :
      (rq : Rq)
      → IsActive env.find_first_bit rq.rt (prio_of rq)
      → prio_of rq p ≡ pos i
      → IsUnlisted p rq.rt
      → total 100 rq.rt.queue + 1 < 2 ^ 32
      → IsActive env.find_first_bit (entered rq).rt (prio_of (entered rq))
  entered-IsActive rq v e u few =
      same_prio-IsActive env.find_first_bit rq (entered rq) (λ q. ground arith)
        (enlist-IsActive env.find_first_bit first (prio_of rq) p i rq.rt v e lt u
          (has_flag flags enqueue_head) (is_rr (rq.task p)) few)

  pub left-IsActive :
      (rq : Rq)
      → IsActive env.find_first_bit rq.rt (prio_of rq)
      → prio_of rq p ≡ pos i
      → 0 < count p (rq.rt.queue i)
      → total 100 rq.rt.queue < 2 ^ 32
      → IsActive env.find_first_bit (left rq).rt (prio_of (left rq))
  left-IsActive rq v e c few =
      same_prio-IsActive env.find_first_bit rq (left rq) (λ q. ground arith)
        (delist-IsActive env first (prio_of rq) p i rq.rt v e lt c (is_rr (rq.task p)) few)

  pub entered-IsCounted :
      (rq : Rq)
      → rq.rt.rt_queued ≡ false
      → rq.rt.rt_nr_running ≡ total 100 rq.rt.queue
      → rq.nr_running + total 100 rq.rt.queue + 1 < 2 ^ 32
      → IsCounted (enqueue_top_rt_rq (entered rq))
        × (others (enqueue_top_rt_rq (entered rq)) ≡ rq.nr_running)
  unfolding enlist inc_rt_tasks
  entered-IsCounted rq off running few = (
    enqueue_top-IsCounted (entered rq) off (omega (arith, running)),
    enqueue_top-others (entered rq) off (omega (arith, running)),
  )

  pub enqueue_rt_entity_lem :
      (rq : Rq)
      → (rq.task p).rt_on_rq ≡ false
      → prio_of rq p ≡ pos i
      → enqueue_rt_entity env rq p flags ≡ some (enqueue_top_rt_rq (entered (dequeue_top_rt_rq rq)))
  unfolding enqueue_rt_entity dequeue_rt_stack
  enqueue_rt_entity_lem rq off e =
      let s = dequeue_top-IsSameRt rq in
      rw (s.listed p, off, enqueue_entity_lem (dequeue_top_rt_rq rq) (s.prio p ∙ e)) refl

  pub dequeue_rt_entity_lem :
      (rq : Rq)
      → (rq.task p).rt_on_rq ≡ true
      → prio_of rq p ≡ pos i
      → dequeue_rt_entity env rq p flags ≡ some (enqueue_top_rt_rq (left (dequeue_top_rt_rq rq)))
  unfolding dequeue_rt_entity dequeue_rt_stack
  dequeue_rt_entity_lem rq on e =
      let s = dequeue_top-IsSameRt rq in
      rw (s.listed p, on, dequeue_entity_lem (dequeue_top_rt_rq rq) (s.prio p ∙ e)) refl

  pub left-IsCounted :
      (rq : Rq)
      → rq.rt.rt_queued ≡ false
      → rq.rt.rt_nr_running ≡ total 100 rq.rt.queue
      → 0 < total 100 rq.rt.queue
      → rq.nr_running + total 100 rq.rt.queue < 2 ^ 32
      → IsCounted (enqueue_top_rt_rq (left rq))
        × (others (enqueue_top_rt_rq (left rq)) ≡ rq.nr_running)
  unfolding delist dec_rt_tasks
  left-IsCounted rq off running some_left few = (
    enqueue_top-IsCounted (left rq) off (omega (arith, running)),
    enqueue_top-others (left rq) off (omega (arith, running)),
  )

  pub entered_queue :
      (rq : Rq)
      → (entered rq).rt.queue i ≡ enlist_list (has_flag flags enqueue_head) p (rq.rt.queue i)
  unfolding enlist inc_rt_tasks
  entered_queue rq = ground arith

  pub left_queue : (rq : Rq) (j : ℕ) → (left rq).rt.queue j ≡ remove p (rq.rt.queue j)
  unfolding delist dec_rt_tasks
  left_queue rq j = refl
