-- ===== src/Sched/Policy.antt =====
-- kernel/sched/core.c, the nice system call and `__sched_setscheduler`. The checks that other files
-- of the kernel make (capabilities, limits, security modules, deadline bandwidth) are fields of
-- `Permit`. Locks are not modelled, so the policy cannot change between the check and the lock.
pub mod Refused
use kernel_programming.Prelude.Int.{ℤ, ◌-ℤ◌, ◌+ℤ◌, negsuc, ltb_ℤ, pos}
use kernel_programming.Sched.{
  Rq, Task, resched_curr, set_task, dl_prio, has_flag, fair_policy, dl_policy, valid_policy,
  rt_prio, rt_policy, dl_sched_class, idle_policy, rt_sched_class, fair_sched_class,
}
use kernel_programming.Prelude.{
  ◌==◌, ◌+◌, ◌%◌, ◌/◌, ◌^◌, ℕ, Bool, Option, none, some, true, false, if◌then◌else◌, ◌>>=◌, ◌||◌,
  ◌&&◌, not, ltb, ℕ, Option, Bool,
}
use kernel_programming.Sched.Class.{
  External, dequeue_task, enqueue_task, check_class_changed, set_curr_task, put_prev_task,
}
use kernel_programming.Sched.Prio.{
  SchedAttr, setscheduler, rt_effective_prio, set_load_weight, policy_or, effective_prio, task_nice,
  nice_to_prio,
}
use kernel_programming.Sched.Change.{
  set_user_nice, is_queued, is_running, same_ℤ, put_back, take_off,
}

-- The checks on the caller that other files make; the error codes are positive, 0 is success.
pub record Permit : Type 0 where
  pub capable : Bool
  pub rlimit_nice : ℕ
  pub rlimit_rtprio : ℕ
  pub same_owner : Bool
  pub security_setnice : ℤ → ℕ
  pub security_setscheduler : ℕ
  pub checkparam_dl : SchedAttr → Bool
  pub dl_param_changed : SchedAttr → Bool
  pub bandwidth_denied : ℕ → Bool
  pub dl_overflow : ℕ → Bool

abbrev pub eperm : ℕ
eperm = 1

abbrev pub einval : ℕ
einval = 22

abbrev pub ebusy : ℕ
ebusy = 16

-- nice_to_rlimit(nice) is 20 - nice.
abbrev pub can_nice : Permit → ℤ → Bool
unfolding ◌-ℤ◌
can_nice permit nice = not (ltb_ℤ (pos permit.rlimit_nice) (pos 20 -ℤ nice)) || permit.capable

abbrev pub clamp : ℤ → ℤ → ℤ → ℤ
clamp lo hi x = if ltb_ℤ x lo then lo else if ltb_ℤ hi x then hi else x

-- The nice system call; `current` is the running task.
unfoldable pub nice : External → Permit → Rq → ℤ → Option (ℕ × Rq)
unfolding set_user_nice ◌+ℤ◌ ◌-ℤ◌
nice ext permit rq increment =
    let step = clamp (negsuc 39) (pos 40) increment in
    let value = clamp (negsuc 19) (pos 19) (task_nice (rq.task rq.curr) +ℤ step) in
    let denied = permit.security_setnice value in
    if ltb_ℤ step (pos 0) && not (can_nice permit value)
    then some (eperm, rq)
    else if not (denied == 0)
    then some (denied, rq)
    else do rq' ← set_user_nice ext rq rq.curr value; some (0, rq')

-- The checks of `__sched_setscheduler` for an unprivileged user.
abbrev pub check_user : Permit → Task → SchedAttr → ℕ → Bool → ℕ
unfolding ◌-ℤ◌
check_user permit t attr policy reset =
    let rtprio = permit.rlimit_rtprio in
    if fair_policy policy
      && ltb_ℤ attr.sched_nice (task_nice t)
      && not (can_nice permit attr.sched_nice)
    then eperm
    else if rt_policy policy && not (policy == t.policy) && rtprio == 0
    then eperm
    else if rt_policy policy
        && ltb t.rt_priority attr.sched_priority
        && ltb rtprio attr.sched_priority
    then eperm
    else if dl_policy policy
    then eperm
    else if idle_policy t.policy && not (idle_policy policy) && not (can_nice permit (task_nice t))
    then eperm
    else if not permit.same_owner
    then eperm
    else if t.sched_reset_on_fork && not reset
    then eperm
    else 0

abbrev same_bool : Bool → Bool → Bool
same_bool a b = if a then b else not b

-- RESET_ON_FORK is the bit 1, SUGOV the bit 2 ^ 28, and ALL the bits 1, 2 and 4.
abbrev pub reset_wanted : Task → SchedAttr → Bool
reset_wanted t attr = elim attr.sched_policy [
  | none ↦ t.sched_reset_on_fork
  | some _ ↦ has_flag attr.sched_flags 1
]

-- All the checks before the lock.
abbrev pub check_request : Permit → Task → SchedAttr → Bool → ℕ
check_request permit t attr user =
    let policy = policy_or attr.sched_policy t.policy in
    let invalid : Bool = elim attr.sched_policy [ none ↦ false | some q ↦ not (valid_policy q) ] in
    let flags = attr.sched_flags in
    let denied = check_user permit t attr policy (reset_wanted t attr) in
    if invalid
      || not (flags % 2 ^ 28 / 8 == 0)
      || not (flags / 2 ^ 29 == 0)
      || ltb 99 attr.sched_priority
      || (dl_policy policy && not (permit.checkparam_dl attr))
      || not (same_bool (rt_policy policy) (not (attr.sched_priority == 0)))
    then einval
    else if user && not permit.capable && not (denied == 0)
    then denied
    else if user && has_flag flags (2 ^ 28)
    then einval
    else if user
    then permit.security_setscheduler
    else 0

-- Whether a request for the policy that the task has changes nothing else.
abbrev pub nothing_changes : Permit → Task → SchedAttr → ℕ → Bool
nothing_changes permit t attr policy =
    policy == t.policy
    && not (fair_policy policy && not (same_ℤ attr.sched_nice (task_nice t)))
    && not (rt_policy policy && not (attr.sched_priority == t.rt_priority))
    && not (dl_policy policy && permit.dl_param_changed attr)

-- The change itself, from `p->sched_reset_on_fork = reset_on_fork` on.
abbrev pub apply_request : External → Option ℤ → Rq → ℕ → SchedAttr → Bool → Option Rq
apply_request ext pi_prio rq p attr pi =
    let old = rq.task p in
    let wanted : Bool = elim attr.sched_policy [ none ↦ false | some q ↦ dl_policy q ] in
    let newprio = if wanted then negsuc 0 else pos 99 -ℤ pos attr.sched_priority in
    let flags = if pi && same_ℤ (rt_effective_prio pi_prio newprio) old.prio then 10 else 14 in
    let queued = is_queued rq p in
    let running = is_running rq p in
    do
      off ← take_off ext rq p queued running flags
      t ← setscheduler ext pi_prio (off.task p) attr pi
      on ←
          put_back ext (set_task off p t) p queued running
            (if ltb_ℤ old.prio t.prio then flags + 16 else flags)
      some (check_class_changed ext on p (off.task p).sched_class old.prio)

-- `__sched_setscheduler`; `pi_prio` is the priority of the top waiter of the task.
unfoldable pub sched_setscheduler :
    External → Permit → Option ℤ → Rq → ℕ → SchedAttr → Bool → Bool → Option (ℕ × Rq)
unfolding setscheduler check_class_changed enqueue_task set_curr_task dequeue_task put_prev_task
    ◌-ℤ◌
sched_setscheduler ext permit pi_prio rq p attr user pi =
    let t = rq.task p in
    let policy = policy_or attr.sched_policy t.policy in
    let refused = check_request permit t attr user in
    let reset = set_task rq p (record t { sched_reset_on_fork = reset_wanted t attr }) in
    if not (refused == 0)
    then some (refused, rq)
    else if elim rq.stop [ none ↦ false | some q ↦ p == q ]
    then some (einval, rq)
    else if nothing_changes permit t attr policy
    then some (0, reset)
    else if user && permit.bandwidth_denied policy
    then some (eperm, rq)
    else if (dl_policy policy || dl_prio t.prio) && permit.dl_overflow policy
    then some (ebusy, rq)
    else do rq' ← apply_request ext pi_prio reset p attr pi; some (0, rq')
