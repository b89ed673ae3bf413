-- ===== src/Sched/Tests/Core.antt =====
-- The laws of kernel/sched/core.c at concrete tasks, with classes that do nothing.
use kernel_programming.Sched.RtClass.{rt_ops}
use kernel_programming.Sched.Tests.Rt.{rt_env}
use kernel_programming.Prelude.{false, none, some, ◌≡◌, refl, arith, ◌*◌, true}
use kernel_programming.Prelude.Int.{pos}
use kernel_programming.Sched.{
  SchedClass, sched_normal, idle_sched_class, fair_sched_class, sched_ts, ts_sched_class,
  rt_sched_class, Task, sched_fifo,
}
use kernel_programming.Sched.Class.{ClassOps, External, nothing, picked}
use kernel_programming.Sched.Prio.{setscheduler, SchedAttr}
use kernel_programming.Sched.Prio.Classify.{setscheduler-serves}
use kernel_programming.Sched.Policy.{Permit, sched_setscheduler}
use kernel_programming.Sched.Policy.Refused.{KeepsOnError, sched_setscheduler-KeepsOnError}
use kernel_programming.Sched.Tests.{task_of, two_tasks}

abbrev pub empty_class : ClassOps
empty_class = record {
  enqueue_task = λ rq p flags. some rq;
  dequeue_task = λ rq p flags. some rq;
  yield_task = λ rq. some rq;
  check_preempt_curr = λ rq p flags. rq;
  pick_next_task = λ put rq prev. (nothing, rq);
  put_prev_task = λ rq p. rq;
  set_curr_task = λ rq. rq;
  task_tick = λ rq p. some rq;
  switched_from = λ rq p. rq;
  switched_to = λ rq p. rq;
  prio_changed = λ rq p old. rq;
}

abbrev class_table : SchedClass → ClassOps
class_table idle_sched_class = record empty_class {
  pick_next_task = λ put rq prev. (picked rq.idle, rq);
}
class_table _ = empty_class

abbrev pub no_load : External
no_load = record {
  class = class_table;
  reweight_task = λ t prio. t;
  contributes_to_load = λ t. false;
  scale_load = λ w. w * 1024;
  task_fork = λ c t. t;
  dl_entity_preempt = λ a b. false;
  signal_pending_state = λ s t. false;
  sched_rr_timeslice = 100;
}

abbrev to_ts : SchedAttr
to_ts = record {
  sched_policy = some sched_ts;
  sched_flags = 0;
  sched_nice = pos 0;
  sched_priority = 0;
}

setscheduler-serves_example :
    (t : Task) × (setscheduler no_load none
        (task_of sched_normal fair_sched_class (pos 120) 4)
        to_ts
        false
      ≡ some t)
    × (t.policy ≡ sched_ts)
    × (t.sched_class ≡ ts_sched_class)
setscheduler-serves_example =
    setscheduler-serves no_load none (task_of sched_normal fair_sched_class (pos 120) 4) to_ts
      (λ t prio. record { policy = refl; static_prio = refl; rt_priority = refl }) (ground arith)
      (ground arith) (ground arith)

abbrev all_refused : Permit
all_refused = record {
  capable = false;
  rlimit_nice = 0;
  rlimit_rtprio = 0;
  same_owner = false;
  security_setnice = λ n. 1;
  security_setscheduler = 1;
  checkparam_dl = λ a. false;
  dl_param_changed = λ a. false;
  bandwidth_denied = λ q. true;
  dl_overflow = λ q. true;
}

abbrev to_fifo : SchedAttr
to_fifo = record {
  sched_policy = some sched_fifo;
  sched_flags = 0;
  sched_nice = pos 0;
  sched_priority = 5;
}

refused_run :
    sched_setscheduler no_load all_refused none two_tasks 1 to_fifo true true ≡ some (1, two_tasks)
unfolding sched_setscheduler
refused_run = refl

sched_setscheduler-KeepsOnError_example :
    KeepsOnError two_tasks
      (sched_setscheduler no_load all_refused none two_tasks 1 to_fifo true true)
sched_setscheduler-KeepsOnError_example =
    sched_setscheduler-KeepsOnError no_load all_refused none two_tasks 1 to_fifo true true

abbrev rt_table : SchedClass → ClassOps
rt_table rt_sched_class = rt_ops rt_env
rt_table c = class_table c

-- The real-time class is that of rt.c.
abbrev with_rt : External
with_rt = record no_load { class = rt_table }
