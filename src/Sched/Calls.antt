-- ===== src/Sched/Calls.antt =====
-- kernel/sched/core.c, the system calls on a policy and what they share: the lookup of the process,
-- the copies from user space, and the answers. Error codes are positive. The lookup, the checks of the
-- security module and the user's memory are fields of `Kernel`; locks are not modelled.
pub mod Attr
pub mod Range
pub mod Trip
pub mod Set
pub mod Get
use kernel_programming.Prelude.{
  ℕ, ◌+◌, ◌-◌, ◌*◌, ◌/◌, ◌%◌, ◌^◌, Bool, true, false, not, ◌&&◌, ◌||◌, List, [], ◌∷◌, Option, none,
  some, ltb, ◌==◌, if◌then◌else◌, ◌>>=◌,
}
use kernel_programming.Prelude.Int.{ℤ, pos, negsuc}
use kernel_programming.Sched.{
  Rq, Task, SchedClass, rt_sched_class, ts_sched_class, stop_sched_class, dl_sched_class,
  fair_sched_class, idle_sched_class, has_flag, rt_policy, dl_policy, fair_policy, idle_policy,
}
use kernel_programming.Sched.Class.{External}
use kernel_programming.Sched.Prio.{SchedAttr, task_nice}
use kernel_programming.Sched.Policy.{Permit, einval, clamp, sched_setscheduler}
use kernel_programming.Sched.Rt.{RtEnv, runtime_inf, sub_u32}
use kernel_programming.Sched.RtClass.{get_rr_interval_rt}
use kernel_programming.Sched.Ts.{get_rr_interval_ts}

abbrev pub esrch : ℕ
esrch = 3

abbrev pub e2big : ℕ
e2big = 7

abbrev pub efault : ℕ
efault = 14

-- What the calls ask other files; an error code of 0 is leave.
pub record Kernel : Type 0 where
  pub ext : External
  pub permit : ℕ → Permit
  pub pi_prio : ℕ → Option ℤ
  pub find_process_by_pid : ℕ → Option ℕ
  pub security_getscheduler : ℕ → ℕ
  -- `get_rr_interval` of the classes whose sources are not here, where they have one
  pub rr_interval : SchedClass → Option (Rq → ℕ → ℕ)

pub data Answer : Type 0 where
  error value : ℕ → Answer

-- A pointer of the user to a `sched_param`.
pub data UserParam : Type 0 where
  null unreadable : UserParam
  param : ℕ → UserParam

abbrev pub reset_on_fork : ℕ
reset_on_fork = 2 ^ 30

-- `_sched_setscheduler`; no policy is SETPARAM_POLICY.
abbrev pub attr_of : Task → Option ℕ → ℕ → SchedAttr
attr_of t none priority = record {
  sched_policy = none;
  sched_flags = 0;
  sched_nice = task_nice t;
  sched_priority = priority;
}
attr_of t (some policy) priority =
    let reset = has_flag policy reset_on_fork in
    record {
      sched_policy = some (if reset then policy - reset_on_fork else policy);
      sched_flags = if reset then 1 else 0;
      sched_nice = task_nice t;
      sched_priority = priority;
    }

module _ (kernel : Kernel) where
  unfoldable pub set_policy : Rq → ℕ → Option ℕ → ℕ → Bool → Option (ℕ × Rq)
  unfolding sched_setscheduler
  set_policy rq p policy priority check =
      sched_setscheduler kernel.ext (kernel.permit p) (kernel.pi_prio p) rq p
        (attr_of (rq.task p) policy priority) check true

  abbrev pub found_or : Option ℕ → Rq → (ℕ → Option (ℕ × Rq)) → Option (ℕ × Rq)
  found_or none rq next = some (esrch, rq)
  found_or (some p) rq next = next p

  -- A process that is looked up by a pid that is not negative.
  abbrev pub with_process : ℤ → Rq → (ℕ → Option (ℕ × Rq)) → Option (ℕ × Rq)
  with_process (negsuc _) rq next = some (einval, rq)
  with_process (pos pid) rq next = found_or (kernel.find_process_by_pid pid) rq next

  abbrev pub is_negative : ℤ → Bool
  is_negative (pos _) = false
  is_negative (negsuc _) = true

  unfoldable pub do_sched_setscheduler : Rq → ℤ → Option ℕ → UserParam → Option (ℕ × Rq)
  unfolding set_policy
  do_sched_setscheduler rq pid policy null = some (einval, rq)
  do_sched_setscheduler rq pid policy unreadable =
      some (if is_negative pid then einval else efault, rq)
  do_sched_setscheduler rq pid policy (param priority) =
      with_process pid rq (λ p. set_policy rq p policy priority true)

  unfoldable pub sys_sched_setscheduler : Rq → ℤ → ℤ → UserParam → Option (ℕ × Rq)
  unfolding do_sched_setscheduler
  sys_sched_setscheduler rq pid (negsuc _) user = some (einval, rq)
  sys_sched_setscheduler rq pid (pos policy) user = do_sched_setscheduler rq pid (some policy) user

  unfoldable pub sys_sched_setparam : Rq → ℤ → UserParam → Option (ℕ × Rq)
  unfolding do_sched_setscheduler
  sys_sched_setparam rq pid user = do_sched_setscheduler rq pid none user

  abbrev pub allowed_query : Option ℕ → (ℕ → Answer) → Answer
  allowed_query none next = error esrch
  allowed_query (some p) next =
      if kernel.security_getscheduler p == 0 then next p else error (kernel.security_getscheduler p)

  -- The lookup and the check of a query.
  abbrev pub query : ℤ → (ℕ → Answer) → Answer
  query (negsuc _) next = error einval
  query (pos pid) next = allowed_query (kernel.find_process_by_pid pid) next

  -- No policy that is stored has the bit of the flag, so the two are added.
  unfoldable pub sys_sched_getscheduler : Rq → ℤ → Answer
  sys_sched_getscheduler rq pid = query pid (λ p.
      let t = rq.task p in value (t.policy + (if t.sched_reset_on_fork then reset_on_fork else 0)))

  abbrev pub has_rt_policy : Task → Bool
  has_rt_policy t = rt_policy t.policy

  -- The value is what the parameter that is copied out holds; `writable` is whether it can be.
  unfoldable pub sys_sched_getparam : Rq → ℤ → Bool → Bool → Answer
  sys_sched_getparam rq pid is_null writable =
      if is_null
      then error einval
      else query pid (λ p.
        let t = rq.task p in
        if writable then value (if has_rt_policy t then t.rt_priority else 0) else error efault)

  -- The slice in jiffies.
  abbrev pub interval_of : RtEnv → SchedClass → Option (Rq → ℕ → ℕ)
  unfolding get_rr_interval_rt get_rr_interval_ts
  interval_of env stop_sched_class = kernel.rr_interval stop_sched_class
  interval_of env dl_sched_class = kernel.rr_interval dl_sched_class
  interval_of env rt_sched_class = some (get_rr_interval_rt env)
  interval_of env ts_sched_class = some get_rr_interval_ts
  interval_of env fair_sched_class = kernel.rr_interval fair_sched_class
  interval_of env idle_sched_class = kernel.rr_interval idle_sched_class

  abbrev pub slice_of : Option (Rq → ℕ → ℕ) → Rq → ℕ → ℕ
  slice_of none rq p = 0
  slice_of (some interval) rq p = interval rq p

  unfoldable pub sched_rr_get_interval : RtEnv → Rq → ℤ → Answer
  unfolding interval_of
  sched_rr_get_interval env rq pid =
      query pid (λ p. value (slice_of (interval_of env (rq.task p).sched_class) rq p))

unfoldable pub sched_get_priority_max : ℕ → Answer
sched_get_priority_max policy =
    if rt_policy policy
    then value 99
    else if dl_policy policy || fair_policy policy || idle_policy policy
    then value 0
    else error einval

unfoldable pub sched_get_priority_min : ℕ → Answer
sched_get_priority_min policy =
    if rt_policy policy
    then value 1
    else if dl_policy policy || fair_policy policy || idle_policy policy
    then value 0
    else error einval

unfoldable pub sched_can_stop_tick : Rq → Bool
sched_can_stop_tick rq =
    if not (rq.dl_nr_running == 0)
    then false
    else if not (rq.rt.rr_nr_running == 0)
    then rq.rt.rr_nr_running == 1
    else if not (sub_u32 rq.rt.rt_nr_running rq.rt.rr_nr_running == 0)
    then true
    else not (ltb 1 rq.nr_running)

-- BW_SHIFT is 20.
unfoldable pub to_ratio : ℕ → ℕ → ℕ
to_ratio period runtime =
    if runtime == runtime_inf
    then 2 ^ 20
    else if period == 0
    then 0
    else runtime * 2 ^ 20 % 2 ^ 64 / period
