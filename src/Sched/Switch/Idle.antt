-- ===== src/Sched/Switch/Idle.antt =====
-- What `pick_next_task` (kernel/sched/core.c) sees of the time-sharing tasks.
use kernel_programming.Sched.Class.{ops_of, External, put_prev_task, nothing, to_picked}
use kernel_programming.Prelude.{ap, ℕ, ◌≡◌, some, false, suc}
use kernel_programming.Sched.{Rq, SchedClass, stop_sched_class, dl_sched_class, rt_sched_class}
use kernel_programming.Sched.Ts.{pick_next_task_ts, first_entry}
use kernel_programming.Sched.Switch.{
  only_fair, pick_next_task, External, pick_again, visit_classes, put_prev_task, chosen, picked,
}

-- On this runqueue the class has no task to offer to `prev`, and leaves the runqueue as it is.
abbrev pub OffersNothing : External → ℕ → SchedClass → Rq → Type 0
OffersNothing ext prev c s =
    (ops_of ext.class c).pick_next_task (put_prev_task ext) s prev ≡ (nothing, s)

ts_offers :
    (put : Rq → ℕ → Rq) (rq : Rq) (p prev : ℕ)
    → first_entry rq.ts 40 ≡ some p
    → to_picked (pick_next_task_ts put rq prev) ≡ (picked p, put rq prev)
unfolding pick_next_task_ts
ts_offers put rq p prev first =
    ap to_picked {y = (some p, put rq prev)} (rw (pick_next_task_ts, first))

-- When all classes are asked, and the stop, deadline and real-time classes have no task on this
-- runqueue, the first task of the highest queue that is not empty is chosen, one retry unit being
-- enough; the previous task is put back.
pub pick_next_task-finds_ts :
    (ext : External) (fuel : ℕ) (rq : Rq) (p prev : ℕ)
    → only_fair rq prev ≡ false
    → first_entry rq.ts 40 ≡ some p
    → OffersNothing ext prev stop_sched_class rq
    → OffersNothing ext prev dl_sched_class rq
    → OffersNothing ext prev rt_sched_class rq
    → pick_next_task ext (suc fuel) rq prev ≡ chosen p (put_prev_task ext rq prev)
unfolding pick_next_task pick_again visit_classes
pick_next_task-finds_ts ext fuel rq p prev all first stop dl rt =
    rw (all, stop, dl, rt, ts_offers (put_prev_task ext) rq p prev first)
