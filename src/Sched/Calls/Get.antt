-- ===== src/Sched/Calls/Get.antt =====
-- kernel/sched/core.c, a policy that a process sets, as a later query reads it.
use kernel_programming.Prelude.{
  ℕ, ◌+◌, ◌-◌, ◌^◌, ◌<◌, ◌≡◌, refl, sym, ap, ◌∙◌, subst, Bool, true, false, not, ◌&&◌, ◌||◌, Option,
  some, none, some_eq, ◌>>=◌, if◌then◌else◌, if_cases, arith, ◌==◌,
}
use kernel_programming.Prelude.Int.{ℤ, pos, ◌+ℤ◌, ◌-ℤ◌}
use kernel_programming.Sched.{
  Rq, Task, set_task, rt_policy, fair_policy, dl_policy, dl_prio, has_flag,
}
use kernel_programming.Sched.Class.{External}
use kernel_programming.Sched.Prio.{SchedAttr, policy_or, task_nice}
use kernel_programming.Sched.Change.{same_ℤ}
use kernel_programming.Sched.Policy.{
  Permit, sched_setscheduler, apply_request, check_request, reset_wanted, nothing_changes, einval,
  eperm, ebusy,
}
use kernel_programming.Sched.Calls.{
  Kernel, value, param, sys_sched_setscheduler, sys_sched_getscheduler, sys_sched_getparam,
  do_sched_setscheduler, set_policy, reset_on_fork, attr_of,
}
use kernel_programming.Sched.Calls.Trip.{View, bind_some}
use kernel_programming.Sched.Calls.Set.{KeepsViews, static_or, apply_request-view}

-- A task that had the static priority `static` and was given a policy.
pub record IsNowAt (static : ℤ) (policy : ℕ) (attr : SchedAttr) (t : Task) : Type 0 where
  pub of_policy : t.policy ≡ policy
  pub of_reset : t.sched_reset_on_fork ≡ has_flag attr.sched_flags 1
  pub of_priority : rt_policy policy ≡ true → t.rt_priority ≡ attr.sched_priority
  pub of_static : t.static_prio ≡ static_or policy attr.sched_nice static

-- A result that, if it is a success, has a property.
abbrev OnSuccess : (Rq → Type 0) → Option (ℕ × Rq) → Type 0
OnSuccess P r = (rq' : Rq) → r ≡ some (0, rq') → P rq'

refusal : (P : Rq → Type 0) (e : ℕ) (rq : Rq) → (e == 0) ≡ false → OnSuccess P (some (e, rq))
refusal P e rq ne rq' q = absurd (ground (arith, ap (λ (r : ℕ × Rq). r.0) (some_eq (e, rq) q)))

task-set_task : (rq : Rq) (p : ℕ) (t : Task) → (set_task rq p t).task p ≡ t
task-set_task rq p t =
    if_cases (λ x. x ≡ t) (p == p) t (rq.task p) (λ _. refl) (λ e. absurd (ground arith))

kept_static :
    (t : Task) (nice : ℤ) (policy : ℕ)
    → (fair_policy policy ≡ true → same_ℤ nice (task_nice t) ≡ true)
    → t.static_prio ≡ static_or policy nice t.static_prio
unfolding ◌+ℤ◌ ◌-ℤ◌
kept_static t nice policy h = ground (arith, h)

unchanged :
    (permit : Permit) (rq : Rq) (p : ℕ) (attr : SchedAttr) (policy : ℕ)
    → nothing_changes permit (rq.task p) attr (policy_or attr.sched_policy (rq.task p).policy)
      ≡ true
    → policy_or attr.sched_policy (rq.task p).policy ≡ policy
    → reset_wanted (rq.task p) attr ≡ has_flag attr.sched_flags 1
    → IsNowAt (rq.task p).static_prio policy attr (
        (set_task rq p
            (record (rq.task p) { sched_reset_on_fork = reset_wanted (rq.task p) attr })).task
          p)
unchanged permit rq p attr policy e q_eq r =
    let q = policy_or attr.sched_policy (rq.task p).policy in
    let pol : q ≡ (rq.task p).policy = ground arith in
    let pri : rt_policy q ≡ true → attr.sched_priority ≡ (rq.task p).rt_priority =
      λ rt. ground arith in
    let nice : fair_policy q ≡ true → same_ℤ attr.sched_nice (task_nice (rq.task p)) ≡ true =
      λ fair. ground arith in
    subst (IsNowAt (rq.task p).static_prio policy attr) (sym (task-set_task rq p _)) (record {
      of_policy = sym pol ∙ q_eq;
      of_reset = r;
      of_priority = λ rt. sym (pri (ap rt_policy q_eq ∙ rt));
      of_static =
          kept_static (rq.task p) attr.sched_nice policy
            (λ fair. nice (ap fair_policy q_eq ∙ fair));
    })

pub sched_setscheduler-IsNowAt :
    (ext : External) (permit : Permit) (pi_prio : Option ℤ) (rq : Rq) (p : ℕ) (attr : SchedAttr)
    (user boost : Bool) (policy : ℕ)
    → KeepsViews ext
    → attr.sched_policy ≡ some policy
    → OnSuccess
        (λ rq'. IsNowAt (rq.task p).static_prio policy attr (rq'.task p))
        (sched_setscheduler ext permit pi_prio rq p attr user boost)
unfolding sched_setscheduler
sched_setscheduler-IsNowAt ext permit pi_prio rq p attr user boost policy keeps same =
    let P : Rq → Type 0 = λ rq'. IsNowAt (rq.task p).static_prio policy attr (rq'.task p) in
    let t = rq.task p in
    let q = policy_or attr.sched_policy t.policy in
    let refused = check_request permit t attr user in
    let reset = set_task rq p (record t { sched_reset_on_fork = reset_wanted t attr }) in
    let q_eq : q ≡ policy = rw same refl in
    let wanted : reset_wanted t attr ≡ has_flag attr.sched_flags 1 = rw same refl in
    let at_p : (reset.task p).sched_reset_on_fork ≡ reset_wanted t attr = ground arith in
    let static : (reset.task p).static_prio ≡ t.static_prio = ground arith in
    let on_apply : OnSuccess P
        (apply_request ext pi_prio reset p attr boost >>= λ rq'. some (0, rq')) =
      λ rq' e.
        let (on, e1, e2) =
          bind_some (apply_request ext pi_prio reset p attr boost) (λ rq'. some (0, rq')) (0, rq')
            e in
        let v = apply_request-view ext keeps pi_prio reset on p attr boost policy same e1 in
        subst P (ap (λ (r : ℕ × Rq). r.1) (some_eq (0, on) e2)) (record {
          of_policy = ap (λ (w : View). w.policy) v;
          of_reset = ap (λ (w : View). w.reset) v ∙ at_p ∙ wanted;
          of_priority = λ _. ap (λ (w : View). w.rt_priority) v;
          of_static =
              ap (λ (w : View). w.static_prio) v ∙ ap (static_or policy attr.sched_nice) static;
        }) in
    if_cases (OnSuccess P) (not (refused == 0)) (some (refused, rq)) _
      (λ e. refusal P refused rq (ground arith))
      (λ _.
        if_cases (OnSuccess P) (elim rq.stop [ none ↦ false | some k ↦ p == k ]) (some (einval, rq))
          _ (λ _. refusal P einval rq refl)
          (λ _.
            if_cases (OnSuccess P) (nothing_changes permit t attr q) (some (0, reset)) _
              (λ e rq' e0.
                subst P (ap (λ (r : ℕ × Rq). r.1) (some_eq (0, reset) e0))
                  (unchanged permit rq p attr policy e q_eq wanted))
              (λ _.
                if_cases (OnSuccess P) (user && permit.bandwidth_denied q) (some (eperm, rq)) _
                  (λ _. refusal P eperm rq refl)
                  (λ _.
                    if_cases (OnSuccess P) ((dl_policy q || dl_prio t.prio) && permit.dl_overflow q)
                      (some (ebusy, rq)) _ (λ _. refusal P ebusy rq refl) (λ _. on_apply)))))

-- The flag that a policy is asked for with, and what is left of the number.
abbrev asked : ℕ → Bool → ℕ
asked policy reset = policy + (if reset then reset_on_fork else 0)

asked_lem :
    (t : Task) (policy priority : ℕ) (reset : Bool)
    → policy < 2 ^ 30
    → let attr = attr_of t (some (asked policy reset)) priority in
      (attr.sched_policy ≡ some policy)
      × (has_flag attr.sched_flags 1 ≡ reset)
      × (attr.sched_priority ≡ priority)
asked_lem t policy priority true h =
    let flagged : has_flag (policy + 2 ^ 30) reset_on_fork ≡ true = ground arith in
    let less : policy + 2 ^ 30 - reset_on_fork ≡ policy = omega arith in
    (rw (flagged, less) refl, rw flagged refl, refl)
asked_lem t policy priority false h =
    let plain : has_flag (policy + 0) reset_on_fork ≡ false = ground arith in
    let same : policy + 0 ≡ policy = omega arith in (rw (plain, same) refl, rw plain refl, refl)

-- When a process sets its policy and priority and the call succeeds, a later query of the policy gives
-- exactly what was asked for, the flag for a reset on a fork included, and a query of the priority
-- gives the priority if the policy is a real-time one; as far as the classes and the reweighting of
-- other files leave these fields alone, and the security module lets the queries pass.
pub sys_sched_setscheduler-getscheduler :
    (kernel : Kernel) (rq rq' : Rq) (pid p policy priority : ℕ) (reset : Bool)
    → KeepsViews kernel.ext
    → kernel.find_process_by_pid pid ≡ some p
    → kernel.security_getscheduler p ≡ 0
    → policy < 2 ^ 30
    → sys_sched_setscheduler kernel rq (pos pid) (pos (asked policy reset)) (param priority)
      ≡ some (0, rq')
    → (sys_sched_getscheduler kernel rq' (pos pid) ≡ value (asked policy reset))
      × (rt_policy policy ≡ true
          → sys_sched_getparam kernel rq' (pos pid) false true ≡ value priority)
unfolding sys_sched_setscheduler sys_sched_getscheduler sys_sched_getparam do_sched_setscheduler
    set_policy
sys_sched_setscheduler-getscheduler kernel rq rq' pid p policy priority reset keeps found allowed
      small e =
    let attr = attr_of (rq.task p) (some (asked policy reset)) priority in
    let (of_policy, of_flag, of_priority) = asked_lem (rq.task p) policy priority reset small in
    let runs : sys_sched_setscheduler kernel rq (pos pid) (pos (asked policy reset))
          (param priority)
        ≡ sched_setscheduler kernel.ext (kernel.permit p) (kernel.pi_prio p) rq p attr true true =
      rw found refl in
    let set =
      sched_setscheduler-IsNowAt kernel.ext (kernel.permit p) (kernel.pi_prio p) rq p attr true true
        policy keeps of_policy rq' (sym runs ∙ e) in
    (
      rw (found, allowed, set.of_policy, set.of_reset, of_flag) refl,
      λ rt. rw (found, allowed, set.of_policy, rt, set.of_priority rt) refl,
    )
