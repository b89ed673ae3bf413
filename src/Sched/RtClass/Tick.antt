-- ===== src/Sched/RtClass/Tick.antt =====
-- The clock tick on a round-robin task (`task_tick_rt` of kernel/sched/rt.c).
use kernel_programming.Sched.Ts.{list_del}
use kernel_programming.Prelude.{
  ℕ, ◌<◌, ◌≡◌, refl, arith, true, some, List, [], ◌∷◌, ◌++◌, count, remove, remove-eq_of_count, ◌∙◌,
}
use kernel_programming.Prelude.Int.{pos}
use kernel_programming.Sched.{Rq, sched_rr, resched_curr, update, Task, set_task}
use kernel_programming.Sched.Frame.{prio_of}
use kernel_programming.Sched.Rt.{RtEnv, update_curr_rt, enlist_list}
use kernel_programming.Sched.Rt.Frame.{update_curr_rt-IsSameRt, rt_index_lem, update_curr_rt-slice}
use kernel_programming.Sched.RtClass.{task_tick_rt, rotate, watchdog}

module _ (env : RtEnv) (p i : ℕ) (lt : i < 100) where
  -- The runqueue with the task at the end of its list.
  abbrev requeued : Rq → List ℕ → Rq
  requeued rq rest = record rq {
    rt = record rq.rt { queue = update (list_del p rq.rt.queue) i (rest ++ p ∷ []) };
  }

  remove_head : (rest : List ℕ) → count p rest ≡ 0 → remove p (p ∷ rest) ≡ rest
  remove_head rest once = ground (arith, remove-eq_of_count p rest once)

  rotate_lem :
      (rq : Rq) (q : ℕ) (rest : List ℕ)
      → (rq.task p).rt_on_rq ≡ true
      → prio_of rq p ≡ pos i
      → rq.rt.queue i ≡ p ∷ q ∷ rest
      → count p (q ∷ rest) ≡ 0
      → rotate env rq p ≡ some (resched_curr (requeued rq (q ∷ rest)))
  unfolding rotate enlist_list
  rotate_lem rq q rest on e list once =
      rw (e, rt_index_lem i lt, list, on, remove_head (q ∷ rest) once) refl

  rotated_queue :
      (rq : Rq) (rest : List ℕ)
      → ((resched_curr (requeued rq rest)).rt.queue i ≡ rest ++ p ∷ [])
        × ((rq.curr ≡ p) → ((resched_curr (requeued rq rest)).task p).need_resched ≡ true)
        × (((resched_curr (requeued rq rest)).task p).rt_time_slice ≡ (rq.task p).rt_time_slice)
  unfolding resched_curr
  rotated_queue rq rest = ground arith

  watchdog_lem :
      (t : Task)
      → let t' = watchdog env p t in
        (t'.policy ≡ t.policy)
        × (t'.rt_time_slice ≡ t.rt_time_slice)
        × (t'.prio ≡ t.prio)
        × (t'.rt_on_rq ≡ t.rt_on_rq)
  unfolding watchdog
  watchdog_lem t = ground arith

  -- The runqueue with a new slice for the task.
  abbrev renewed : Rq → Rq
  renewed rq =
      set_task rq p (record (watchdog env p (rq.task p)) { rt_time_slice = env.rr_timeslice })

  tick_lem :
      (rq : Rq)
      → ((update_curr_rt env rq).task p).policy ≡ sched_rr
      → ((update_curr_rt env rq).task p).rt_time_slice ≡ 1
      → task_tick_rt env rq p ≡ rotate env (renewed (update_curr_rt env rq)) p
  unfolding task_tick_rt
  tick_lem rq rr one =
      let w = watchdog_lem ((update_curr_rt env rq).task p) in rw (w.0, w.1, rr, one) refl

  -- When the slice of a round-robin task that runs ends on a tick and other tasks wait on its list,
  -- it gets a new slice, goes to the end of the list, so that the next one is first, and is asked to
  -- reschedule.
  pub task_tick_rt-rotates :
      (rq : Rq) (q : ℕ) (rest : List ℕ)
      → (rq.task p).policy ≡ sched_rr
      → (rq.task p).rt_time_slice ≡ 1
      → (rq.task p).rt_on_rq ≡ true
      → rq.curr ≡ p
      → prio_of rq p ≡ pos i
      → rq.rt.queue i ≡ p ∷ q ∷ rest
      → count p (q ∷ rest) ≡ 0
      → (rq' : Rq) × (task_tick_rt env rq p ≡ some rq')
        × (rq'.rt.queue i ≡ q ∷ rest ++ p ∷ [])
        × ((rq'.task p).need_resched ≡ true)
        × ((rq'.task p).rt_time_slice ≡ env.rr_timeslice)
  task_tick_rt-rotates rq q rest rr one on curr e list once =
      let u = update_curr_rt env rq in
      let s = update_curr_rt-IsSameRt env rq in
      let t = update_curr_rt-slice env rq p in
      let w = watchdog_lem (u.task p) in
      let x = renewed u in
      let all =
        rotate_lem x q rest (ground (arith, w.3, s.listed p, on)) (ground (arith, w.2, s.prio p, e))
          (rw s.queue list) once in
      let (list', told, slice) = rotated_queue x (q ∷ rest) in
      (
        resched_curr (requeued x (q ∷ rest)),
        tick_lem rq (t.0 ∙ rr) (t.1 ∙ one) ∙ all,
        list',
        told (t.2 ∙ curr),
        slice ∙ ground arith,
      )
