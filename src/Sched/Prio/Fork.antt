-- ===== src/Sched/Prio/Fork.antt =====
-- What `sched_fork` (kernel/sched/core.c) makes of the child of a time-sharing task.
use kernel_programming.Prelude.{◌≡◌, refl, arith, some, false}
use kernel_programming.Prelude.Int.{ℤ, pos, ◌≤ℤ◌}
use kernel_programming.Sched.{rt_prio, dl_prio, Task, sched_ts, ts_sched_class}
use kernel_programming.Sched.Class.{External}
use kernel_programming.Sched.Prio.{sched_fork_init, sched_fork, forked, sched_fork_init}

not_dl : (prio : ℤ) → pos 100 ≤ℤ prio → dl_prio prio ≡ false
not_dl prio le = ground arith

not_rt : (prio : ℤ) → pos 100 ≤ℤ prio → rt_prio prio ≡ false
not_rt prio le = ground arith

-- When a time-sharing parent does not ask for a reset and its normal priority is at least 100, then
-- the child, before the class's own hook, has the policy and the class of the parent, the normal
-- priority of the parent, and a slice of 12 ticks, whatever the priority.
pub sched_fork-ts :
    (ext : External) (current_prio : ℤ) (t : Task)
    → t.policy ≡ sched_ts
    → t.sched_reset_on_fork ≡ false
    → pos 100 ≤ℤ current_prio
    → (child : Task) × (sched_fork ext current_prio t
        ≡ some (forked, ext.task_fork ts_sched_class child))
      × (child.policy ≡ sched_ts)
      × (child.sched_class ≡ ts_sched_class)
      × (child.prio ≡ current_prio)
      × (child.time_slice ≡ 12)
unfolding sched_fork sched_fork_init
sched_fork-ts ext current_prio t policy reset le = (
  record (sched_fork_init ext t) {
    state = 2048;
    prio = current_prio;
    sched_class = ts_sched_class;
  },
  rw (reset, not_dl current_prio le, not_rt current_prio le, policy),
  policy,
  refl,
  refl,
  refl,
)
