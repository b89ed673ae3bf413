-- ===== src/Sched/Switch/Realtime.antt =====
-- The real-time class before the time-sharing class in `pick_next_task` (kernel/sched/core.c).
use kernel_programming.Prelude.{
  ℕ, suc, ◌≡◌, arith, true, false, Bool, refl, ap, ◌∙◌, not, if◌then◌else◌,
}
use kernel_programming.Prelude.Int.{pos, ltb_ℤ}
use kernel_programming.Sched.{Rq, stop_sched_class, dl_sched_class, rt_sched_class}
use kernel_programming.Sched.Class.{External, put_prev_task, picked, same_class, ops_of}
use kernel_programming.Sched.Switch.{only_fair, pick_next_task, chosen, pick_again, visit_classes}
use kernel_programming.Sched.Switch.Idle.{OffersNothing}
use kernel_programming.Sched.Rt.{RtEnv}
use kernel_programming.Sched.Rt.Active.{FindsFirst}
use kernel_programming.Sched.Rt.Frame.{IsSameRt, IsActive-IsSameRt}
use kernel_programming.Sched.RtClass.{rt_ops, pick_next_task_rt, pick_next_rt_entity}
use kernel_programming.Sched.RtClass.Queue.{IsRtQueued}
use kernel_programming.Sched.RtClass.Pick.{IsFirst, pick_next_rt_entity-IsFirst}

if_not : {A : Type 0} (b : Bool) (x y : A) → b ≡ true → (if not b then x else y) ≡ y
if_not true x y e = refl
if_not false x y e = absurd (ground arith)

module _ (env : RtEnv) (first : FindsFirst env.find_first_bit) where
  offered_lem :
      (put : Rq → ℕ → Rq) (rq : Rq) (prev p : ℕ)
      → same_class (rq.task prev).sched_class rt_sched_class ≡ false
      → ltb_ℤ (rq.task prev).prio (pos rq.rt.highest_prio) ≡ false
      → rq.rt.rt_queued ≡ true
      → pick_next_rt_entity env (put rq prev).rt ≡ picked p
      → pick_next_task_rt env put rq prev ≡ (picked p, put rq prev)
  unfolding pick_next_task_rt
  offered_lem put rq prev p other lower on same =
      rw (other, lower) (if_not rq.rt.rt_queued _ _ on ∙ ap (λ x. (x, put rq prev)) same)

  -- Suppose the task that ran is of another class than the real-time class and of no better
  -- priority than the best real-time task, and not all runnable tasks are of the fair class. When
  -- the stop and deadline classes have no task and the real-time tasks are counted, which they are
  -- not while they are throttled, the first of the real-time tasks of the best priority is chosen,
  -- whatever tasks the time-sharing and fair classes hold.
  pub pick_next_task-finds_rt :
      (ext : External) (fuel : ℕ) (rq : Rq) (prev : ℕ)
      → ext.class rt_sched_class ≡ rt_ops env
      → only_fair rq prev ≡ false
      → OffersNothing ext prev stop_sched_class rq
      → OffersNothing ext prev dl_sched_class rq
      → IsSameRt rq (put_prev_task ext rq prev)
      → IsRtQueued env.find_first_bit rq
      → rq.rt.rt_queued ≡ true
      → same_class (rq.task prev).sched_class rt_sched_class ≡ false
      → ltb_ℤ (rq.task prev).prio (pos rq.rt.highest_prio) ≡ false
      → (p : ℕ) × (pick_next_task ext (suc fuel) rq prev ≡ chosen p (put_prev_task ext rq prev))
        × IsFirst (put_prev_task ext rq prev).rt p
  unfolding pick_next_task pick_again visit_classes
  pick_next_task-finds_rt ext fuel rq prev is_rt all stop dl s v on other lower =
      let rq' = put_prev_task ext rq prev in
      let v' = IsActive-IsSameRt env.find_first_bit rq rq' s v.active in
      let (p, same, best) =
        pick_next_rt_entity-IsFirst env first rq' v'
          (omega (arith, s.running, v.counts.offered on)) in
      let rt_offers : (ops_of ext.class rt_sched_class).pick_next_task (put_prev_task ext) rq prev
          ≡ (picked p, rq') =
        rw is_rt (offered_lem (put_prev_task ext) rq prev p other lower on same) in
      (p, rw (all, stop, dl, rt_offers) refl, best)
