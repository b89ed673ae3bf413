-- ===== src/Sched/Calls/Attr/Trip.antt =====
-- kernel/sched/core.c, an attribute that a process sets, as `sched_getattr` reads it.
use kernel_programming.Prelude.{
  ℕ, ◌^◌, ◌≤◌, ◌≡◌, refl, sym, ap, ◌∙◌, inl, inr, true, false, some, arith, Bool-cases, leb, ltb,
  ◌-◌, if◌then◌else◌,
}
use kernel_programming.Prelude.Int.{ℤ, pos, ◌+ℤ◌, ◌-ℤ◌}
use kernel_programming.Sched.{Rq, Task, rt_policy, fair_policy, dl_policy, has_flag}
use kernel_programming.Sched.Prio.{SchedAttr, task_nice}
use kernel_programming.Sched.Policy.{sched_setscheduler}
use kernel_programming.Sched.Calls.{Kernel}
use kernel_programming.Sched.Calls.Set.{KeepsViews, static_or}
use kernel_programming.Sched.Calls.Get.{IsNowAt, sched_setscheduler-IsNowAt}
use kernel_programming.Sched.Calls.Attr.{
  UserAttr, UserBuffer, read_out, copied, sched_copy_attr, sys_sched_setattr, sys_sched_getattr,
  sched_read_attr, attr_read, is_zero,
}

-- What is read of an attribute, for a task that had the nice value `old`: the flag of a reset is the
-- only one, and the parameters that the policy does not have are 0, but for the nice value, which is
-- the old one under SCHED_TS and SCHED_IDLE.
abbrev pub seen : ℕ → SchedAttr → ℤ → SchedAttr
seen policy attr old = record {
  sched_policy = some policy;
  sched_flags = if has_flag attr.sched_flags 1 then 1 else 0;
  sched_nice =
      if rt_policy policy then pos 0 else if fair_policy policy then attr.sched_nice else old;
  sched_priority = if rt_policy policy then attr.sched_priority else 0;
}

nice_after :
    (t old : Task) (policy : ℕ) (nice : ℤ)
    → t.static_prio ≡ static_or policy nice old.static_prio
    → task_nice t ≡ (if fair_policy policy then nice else task_nice old)
unfolding ◌+ℤ◌ ◌-ℤ◌
nice_after t old policy nice e = ground (arith, e)

attr_read-seen :
    (getparam_dl : Task → SchedAttr → SchedAttr) (old t : Task) (policy : ℕ) (attr : SchedAttr)
    → dl_policy policy ≡ false
    → IsNowAt old.static_prio policy attr t
    → attr_read getparam_dl t ≡ seen policy attr (task_nice old)
unfolding attr_read
attr_read-seen getparam_dl old t policy attr dl now =
    let nice = nice_after t old policy attr.sched_nice now.of_static in
    elim (Bool-cases (rt_policy policy)) [
      | inl rt ↦ rw (now.of_policy, dl, rt, now.of_reset, now.of_priority rt) refl
      | inr other ↦ rw (now.of_policy, dl, other, now.of_reset, nice) refl
    ]

sched_read_attr-whole :
    (layout : SchedAttr → ℕ → ℕ) (buffer : UserBuffer) (attr : SchedAttr) (size : ℕ)
    → 48 ≤ size
    → buffer.accessible size ≡ true
    → buffer.copies_out ≡ true
    → sched_read_attr layout buffer attr size ≡ read_out 48 attr
unfolding sched_read_attr is_zero
sched_read_attr-whole layout buffer attr size lo reach copies =
    let nothing_left : 48 - size ≡ 0 = omega arith in
    let enough : ltb size 48 ≡ false = ground arith in rw (reach, nothing_left, copies, enough) refl

-- When a process sets an attribute of a policy other than SCHED_DEADLINE and the call succeeds, a
-- later sched_getattr gives back the policy, the flag for a reset on a fork, the priority of a
-- real-time policy, and the nice value, as it was clamped, of a fair one; under SCHED_TS the nice value
-- that was asked for is lost, and the old one is read. The classes and the reweighting of other
-- files leave these fields alone, the security module lets the query pass, and the user's buffer can be
-- written and has from 48 bytes to a page.
pub sys_sched_setattr-getattr :
    (kernel : Kernel) (getparam_dl : Task → SchedAttr → SchedAttr) (layout : SchedAttr → ℕ → ℕ)
    (rq rq' : Rq) (pid p size : ℕ) (u : UserAttr) (attr : SchedAttr) (buffer : UserBuffer)
    → KeepsViews kernel.ext
    → kernel.find_process_by_pid pid ≡ some p
    → kernel.security_getscheduler p ≡ 0
    → sched_copy_attr u ≡ copied attr
    → dl_policy u.policy ≡ false
    → sys_sched_setattr kernel rq (pos pid) (some u) 0 ≡ some (0, rq')
    → 48 ≤ size
    → size ≤ 4096
    → buffer.accessible size ≡ true
    → buffer.copies_out ≡ true
    → sys_sched_getattr kernel getparam_dl layout rq' (pos pid) (some buffer) size 0
      ≡ read_out 48 (seen u.policy attr (task_nice (rq.task p)))
unfolding sys_sched_setattr sys_sched_getattr
sys_sched_setattr-getattr kernel getparam_dl layout rq rq' pid p size u attr buffer keeps found
      allowed copy dl e lo hi reach copies =
    let asked = record attr { sched_policy = some u.policy } in
    let runs =
      sched_setscheduler kernel.ext (kernel.permit p) (kernel.pi_prio p) rq p asked true true in
    elim (Bool-cases (leb (2 ^ 31) u.policy)) [
      | inl bad ↦ absurd (ground (arith, copy, bad, e))
      | inr small ↦
          let done : sys_sched_setattr kernel rq (pos pid) (some u) 0 ≡ runs =
            rw (copy, small, found) refl in
          let now =
            sched_setscheduler-IsNowAt kernel.ext (kernel.permit p) (kernel.pi_prio p) rq p asked
              true true u.policy keeps refl rq' (sym done ∙ e) in
          let shown = attr_read-seen getparam_dl (rq.task p) (rq'.task p) u.policy asked dl now in
          let big : ltb 4096 size ≡ false = ground arith in
          let enough : ltb size 48 ≡ false = ground arith in
          let whole =
            sched_read_attr-whole layout buffer (attr_read getparam_dl (rq'.task p)) size lo reach
              copies in
          rw (big, enough, found, allowed) (whole ∙ ap (read_out 48) shown)
    ]
