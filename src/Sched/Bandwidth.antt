-- ===== src/Sched/Bandwidth.antt =====
-- kernel/sched/rt.c, the limits of real-time tasks as sysctl sets them: `sched_rt_handler`,
-- `sched_rr_handler` and what they call, without CONFIG_RT_GROUP_SCHED. What proc_dointvec answers
-- and leaves in the variables, and what sched_dl_global_validate answers, are arguments;
-- sched_dl_do_global is not modelled.
pub mod Written
use kernel_programming.Prelude.{
  ℕ, suc, ◌+◌, ◌-◌, ◌*◌, ◌%◌, ◌^◌, Bool, true, false, not, ◌&&◌, ◌||◌, List, [], ◌∷◌, ltb, ◌==◌,
  if◌then◌else◌,
}
use kernel_programming.Prelude.Int.{ℤ, pos, negsuc, pos_part, neg_part, ltb_ℤ}
use kernel_programming.Sched.Rt.{runtime_inf}
use kernel_programming.Sched.Share.{Cpus, set_runtime}

-- The variables of sysctl, `def_rt_bandwidth` in nanoseconds, and the runqueues. The runtime and the
-- slice in milliseconds are ints, the period is an unsigned int.
pub record Limits : Type 0 where
  pub sysctl_sched_rt_period : ℕ
  pub sysctl_sched_rt_runtime : ℤ
  pub sysctl_sched_rr_timeslice : ℤ
  pub sched_rr_timeslice : ℕ
  pub rt_period : ℕ
  pub rt_runtime : ℕ
  pub cpus : Cpus

-- What `proc_dointvec` returns, and what the variables that it may write hold behind it.
pub record Proc : Type 0 where
  pub ret : ℤ
  pub period : ℕ
  pub runtime : ℤ
  pub slice : ℤ

-- An int as a wider or an equally wide unsigned number.
abbrev pub to_unsigned : ℕ → ℤ → ℕ
to_unsigned w (pos n) = n
to_unsigned w (negsuc n) = 2 ^ w - suc n

abbrev pub nsec_per_usec : ℕ
nsec_per_usec = 1000

abbrev pub ok : ℤ
ok = pos 0

abbrev pub einval : ℤ
einval = negsuc 21

abbrev pub is_ok : ℤ → Bool
is_ok ret = pos_part ret + neg_part ret == 0

abbrev pub global_rt_period : Limits → ℕ
global_rt_period l = l.sysctl_sched_rt_period * nsec_per_usec % 2 ^ 64

abbrev pub global_rt_runtime : Limits → ℕ
global_rt_runtime l =
    if ltb_ℤ l.sysctl_sched_rt_runtime (pos 0)
    then runtime_inf
    else to_unsigned 64 l.sysctl_sched_rt_runtime * nsec_per_usec % 2 ^ 64

unfoldable pub sched_rt_global_validate : Limits → ℤ
sched_rt_global_validate l =
    if l.sysctl_sched_rt_period == 0
    then einval
    else if not (to_unsigned 64 l.sysctl_sched_rt_runtime == runtime_inf)
        && ltb l.sysctl_sched_rt_period (to_unsigned 32 l.sysctl_sched_rt_runtime)
    then einval
    else ok

-- for_each_possible_cpu
unfoldable pub set_runtimes : ℕ → List ℕ → Cpus → Cpus
set_runtimes r [] cpus = cpus
set_runtimes r (i ∷ is) cpus = set_runtimes r is (set_runtime cpus i r)

-- `sched_rt_global_constraints`, which always returns 0, and `sched_rt_do_global`.
unfoldable pub sched_rt_global_constraints : List ℕ → Limits → Limits
unfolding set_runtimes
sched_rt_global_constraints possible l = record l {
  cpus = set_runtimes (global_rt_runtime l) possible l.cpus;
}

unfoldable pub sched_rt_do_global : Limits → Limits
sched_rt_do_global l = record l { rt_runtime = global_rt_runtime l; rt_period = global_rt_period l }

-- The label `undo`.
abbrev pub undo : Limits → Limits → Limits
undo old l = record l {
  sysctl_sched_rt_period = old.sysctl_sched_rt_period;
  sysctl_sched_rt_runtime = old.sysctl_sched_rt_runtime;
}

abbrev pub written : Proc → Limits → Limits
written proc old = record old {
  sysctl_sched_rt_period = proc.period;
  sysctl_sched_rt_runtime = proc.runtime;
}

unfoldable pub sched_rt_handler : List ℕ → Proc → (Limits → ℤ) → Bool → Limits → ℤ × Limits
unfolding sched_rt_global_validate sched_rt_global_constraints sched_rt_do_global
sched_rt_handler possible proc dl_validate write old =
    let l = written proc old in
    if not (is_ok proc.ret && write)
    then (proc.ret, l)
    else if not (is_ok (sched_rt_global_validate l))
    then (sched_rt_global_validate l, undo old l)
    else if not (is_ok (dl_validate l))
    then (dl_validate l, undo old l)
    else (ok, sched_rt_do_global (sched_rt_global_constraints possible l))

unfoldable pub sched_rr_handler : (ℕ → ℕ) → ℕ → Proc → Bool → Limits → ℤ × Limits
sched_rr_handler msecs_to_jiffies rr_timeslice proc write old =
    let l = record old { sysctl_sched_rr_timeslice = proc.slice } in
    let slice =
      if ltb_ℤ (pos 0) l.sysctl_sched_rr_timeslice
      then msecs_to_jiffies (pos_part l.sysctl_sched_rr_timeslice)
      else rr_timeslice in
    (proc.ret, if is_ok proc.ret && write then record l { sched_rr_timeslice = slice } else l)
