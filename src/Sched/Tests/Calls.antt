-- ===== src/Sched/Tests/Calls.antt =====
-- A task that sleeps is made a first-in first-out task (kernel/sched/core.c), and an attribute is
-- copied, set and read.
use kernel_programming.Prelude.{
  ℕ, ◌+◌, ◌^◌, ◌<◌, ◌≤◌, ◌≡◌, ◌⊎◌, refl, true, false, [], some, none, arith, ◌*◌,
}
use kernel_programming.Prelude.Int.{pos, negsuc, ◌≤ℤ◌, ◌-ℤ◌, ◌+ℤ◌}
use kernel_programming.Sched.{
  Rq, Task, set_task, rt_policy, sched_ts, fair_sched_class, ts_sched_class, rt_sched_class,
}
use kernel_programming.Sched.Class.{check_class_changed}
use kernel_programming.Sched.Prio.{
  SchedAttr, setscheduler, setscheduler_params, set_load_weight, normal_prio,
}
use kernel_programming.Sched.Policy.{Permit, sched_setscheduler}
use kernel_programming.Sched.Calls.{
  Kernel, value, param, sys_sched_setscheduler, sys_sched_getscheduler, sys_sched_getparam,
  do_sched_setscheduler, set_policy,
}
use kernel_programming.Sched.Calls.Trip.{KeepsView}
use kernel_programming.Sched.Calls.Set.{KeepsViews}
use kernel_programming.Sched.Calls.Get.{sys_sched_setscheduler-getscheduler}
use kernel_programming.Sched.Calls.Attr.Trip.{seen, sys_sched_setattr-getattr}
use kernel_programming.Sched.Calls.Attr.{
  sys_sched_setattr, sys_sched_getattr, read_out, UserAttr, copied, sched_copy_attr, unknown_bytes,
}
use kernel_programming.Sched.Calls.Attr.Copy.{sched_copy_attr-copied}
use kernel_programming.Sched.Tests.{task_of, rq_of}
use kernel_programming.Sched.Tests.Core.{no_load, empty_class}

abbrev all_allowed : Permit
all_allowed = record {
  capable = true;
  rlimit_nice = 0;
  rlimit_rtprio = 0;
  same_owner = true;
  security_setnice = λ n. 0;
  security_setscheduler = 0;
  checkparam_dl = λ a. true;
  dl_param_changed = λ a. false;
  bandwidth_denied = λ q. false;
  dl_overflow = λ q. false;
}

abbrev kernel : Kernel
kernel = record {
  ext = record no_load { class = λ c. empty_class };
  permit = λ p. all_allowed;
  pi_prio = λ p. none;
  find_process_by_pid = λ pid. some (pid + 0);
  security_getscheduler = λ p. 0;
  rr_interval = λ c. none;
}

empty_class-KeepsView : KeepsView empty_class
empty_class-KeepsView = record {
  enqueue = λ rq rq' p flags e q. ground arith;
  dequeue = λ rq rq' p flags e q. ground arith;
  put_prev = λ rq p q. refl;
  set_curr = λ rq q. refl;
  from = λ rq p q. refl;
  to = λ rq p q. refl;
  changed = λ rq p old q. refl;
}

kernel-KeepsViews : KeepsViews kernel.ext
kernel-KeepsViews = record { class = λ c. empty_class-KeepsView; reweight = λ t prio. refl }

abbrev asleep : Task
asleep = record (task_of sched_ts ts_sched_class (pos 120) 4) { on_rq = 0 }

abbrev one_sleeps : Rq
one_sleeps = rq_of 1 (λ i. []) (λ p. asleep)

abbrev changed : Rq
changed =
    set_task (set_task one_sleeps 3 (record asleep { sched_reset_on_fork = true })) 3
      (record asleep {
        sched_reset_on_fork = true;
        policy = 1;
        rt_priority = 5;
        normal_prio = pos 94;
        prio = pos 94;
        sched_class = rt_sched_class;
        weight = 1024 * 1024;
        inv_weight = 4194304;
      })

set_run :
    sys_sched_setscheduler kernel one_sleeps (pos 3) (pos (1 + 2 ^ 30)) (param 5)
    ≡ some (0, changed)
unfolding sys_sched_setscheduler do_sched_setscheduler set_policy sched_setscheduler setscheduler
    setscheduler_params set_load_weight normal_prio check_class_changed ◌-ℤ◌ ◌+ℤ◌
set_run = refl

sys_sched_setscheduler-getscheduler_example :
    (sys_sched_getscheduler kernel changed (pos 3) ≡ value (1 + 2 ^ 30))
    × (rt_policy 1 ≡ true → sys_sched_getparam kernel changed (pos 3) false true ≡ value 5)
sys_sched_setscheduler-getscheduler_example =
    sys_sched_setscheduler-getscheduler kernel one_sleeps changed 3 3 1 5 true kernel-KeepsViews
      refl refl (ground arith) set_run

abbrev wish : SchedAttr
wish = record { sched_policy = none; sched_flags = 0; sched_nice = pos 30; sched_priority = 0 }

abbrev long_attr : UserAttr
long_attr = record {
  accessible = true;
  size = some 50;
  byte = λ i. some 0;
  attr = some wish;
  policy = 0;
}

copy_run : sched_copy_attr long_attr ≡ copied (record wish { sched_nice = pos 19 })
unfolding sched_copy_attr unknown_bytes
copy_run = refl

sched_copy_attr-copied_example :
    (long_attr.accessible ≡ true)
    × ((word : ℕ) × (long_attr.size ≡ some word)
        × ((word ≡ 0) ⊎ ((48 ≤ word) × (word ≤ 4096)))
        × ((i : ℕ) → 48 ≤ i → i < word → long_attr.byte i ≡ some 0))
    × (negsuc 19 ≤ℤ pos 19)
    × (pos 19 ≤ℤ pos 19)
sched_copy_attr-copied_example =
    sched_copy_attr-copied long_attr (record wish { sched_nice = pos 19 }) copy_run

abbrev nicest : Rq
nicest =
    set_task (set_task one_sleeps 3 (record asleep { sched_reset_on_fork = false })) 3
      (record asleep {
        sched_reset_on_fork = false;
        policy = 0;
        rt_priority = 0;
        static_prio = pos 139;
        normal_prio = pos 139;
        prio = pos 139;
        sched_class = fair_sched_class;
        weight = 15 * 1024;
        inv_weight = 286331153;
      })

setattr_run : sys_sched_setattr kernel one_sleeps (pos 3) (some long_attr) 0 ≡ some (0, nicest)
unfolding sys_sched_setattr sched_copy_attr unknown_bytes sched_setscheduler setscheduler
    setscheduler_params set_load_weight normal_prio check_class_changed ◌-ℤ◌ ◌+ℤ◌
setattr_run = refl

sys_sched_setattr-getattr_example :
    sys_sched_getattr kernel
      (λ t a. a)
      (λ a i. 0)
      nicest
      (pos 3)
      (some (record { accessible = λ n. true; copies_out = true }))
      64
      0
    ≡ read_out 48 (seen 0 (record wish { sched_nice = pos 19 }) (pos 0))
sys_sched_setattr-getattr_example =
    sys_sched_setattr-getattr kernel (λ t a. a) (λ a i. 0) one_sleeps nicest 3 3 64 long_attr
      (record wish { sched_nice = pos 19 }) (record { accessible = λ n. true; copies_out = true })
      kernel-KeepsViews refl refl copy_run refl setattr_run (omega arith) (omega arith) refl refl
