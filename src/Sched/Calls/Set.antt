-- ===== src/Sched/Calls/Set.antt =====
-- kernel/sched/core.c, `__sched_setscheduler` that succeeds: the policy, the priority and the flag
-- that the task then has.
use kernel_programming.Prelude.{
  ℕ, ◌≡◌, refl, sym, ap, ◌∙◌, subst, Bool, true, false, ◌&&◌, Option, some, none, some_eq, ◌>>=◌,
  if◌then◌else◌, if_cases, arith, get_elem?, ◌+◌,
}
use kernel_programming.Prelude.Int.{ℤ, pos, negsuc, ◌-ℤ◌, ltb_ℤ}
use kernel_programming.Sched.{
  Rq, Task, SchedClass, set_task, dl_policy, fair_policy, idle_policy, fair_sched_class,
}
use kernel_programming.Sched.Class.{External, check_class_changed, same_class}
use kernel_programming.Sched.Prio.{
  SchedAttr, policy_or, nice_to_prio, setscheduler, setscheduler_params, set_load_weight,
  weights_at, sched_prio_to_weight, sched_prio_to_wmult, table_weights, rt_effective_prio,
}
use kernel_programming.Sched.Change.{put_back, take_off, same_ℤ, is_queued, is_running}
use kernel_programming.Sched.Policy.{apply_request}
use kernel_programming.Sched.Calls.Trip.{
  View, view, SameView, KeepsView, bind_some, take_off-SameView, put_back-SameView,
  check_class_changed-SameView,
}

-- What the other files of the kernel leave alone.
pub record KeepsViews (ext : External) : Type 0 where
  pub class : (c : SchedClass) → KeepsView (ext.class c)
  pub reweight : (t : Task) (prio : ℤ) → view (ext.reweight_task t prio) ≡ view t

-- The static priority that a request for a policy leaves.
abbrev pub static_or : ℕ → ℤ → ℤ → ℤ
static_or policy nice old = if fair_policy policy then nice_to_prio nice else old

-- What the queries show behind a request for a policy.
abbrev view_after : ℕ → SchedAttr → Bool → ℤ → View
view_after policy attr reset static = record {
  policy = policy;
  rt_priority = attr.sched_priority;
  reset = reset;
  static_prio = static_or policy attr.sched_nice static;
}

view_after-eq :
    (attr : SchedAttr) (asked : Option ℕ) (policy old : ℕ) {s s' : ℤ} {reset reset' : Bool}
    → asked ≡ some policy
    → reset ≡ reset'
    → s ≡ s'
    → view_after (policy_or asked old) attr reset s ≡ view_after policy attr reset' s'
view_after-eq attr asked policy old e r q = rw (e, r, q) refl

module _ (ext : External) (keeps : KeepsViews ext) where
  weights_at-view : (t t' : Task) (prio : ℤ) → weights_at ext t prio ≡ some t' → view t' ≡ view t
  weights_at-view t t' (pos prio) e =
      of_tables (get_elem? sched_prio_to_weight prio) (get_elem? sched_prio_to_wmult prio) e
    where
      of_tables : (w m : Option ℕ) → table_weights ext t w m ≡ some t' → view t' ≡ view t
      of_tables none m q = absurd (ground arith)
      of_tables (some w) none q = absurd (ground arith)
      of_tables (some w) (some m) q =
          ap view (sym (some_eq (record t { weight = ext.scale_load w; inv_weight = m }) q))
  weights_at-view t t' (negsuc prio) e = absurd (ground arith)

  set_load_weight-view :
      (t t' : Task) (b : Bool) → set_load_weight ext t b ≡ some t' → view t' ≡ view t
  unfolding set_load_weight
  set_load_weight-view t t' b e =
      if_cases (λ r. r ≡ some t' → view t' ≡ view t) (idle_policy t.policy) _ _
        (λ _ q. ap view (sym (some_eq _ q)))
        (λ _.
          if_cases (λ r. r ≡ some t' → view t' ≡ view t)
            (b && same_class t.sched_class fair_sched_class) _ _
            (λ _ q. ap view (sym (some_eq _ q)) ∙ keeps.reweight t _)
            (λ _. weights_at-view t t' (t.static_prio -ℤ pos 100)))
        e

  setscheduler-view :
      (pi_prio : Option ℤ) (t t' : Task) (attr : SchedAttr) (boost : Bool)
      → setscheduler ext pi_prio t attr boost ≡ some t'
      → view t'
        ≡ view_after (policy_or attr.sched_policy t.policy) attr t.sched_reset_on_fork t.static_prio
  unfolding setscheduler setscheduler_params
  setscheduler-view pi_prio t t' attr boost e =
      let (t1, e1, e2) = bind_some (setscheduler_params ext t attr) _ t' e in
      ap view (sym (some_eq _ e2)) ∙ set_load_weight-view _ t1 true e1

  pub apply_request-view :
      (pi_prio : Option ℤ) (rq rq' : Rq) (p : ℕ) (attr : SchedAttr) (boost : Bool) (policy : ℕ)
      → attr.sched_policy ≡ some policy
      → apply_request ext pi_prio rq p attr boost ≡ some rq'
      → view (rq'.task p)
        ≡ view_after policy attr (rq.task p).sched_reset_on_fork (rq.task p).static_prio
  apply_request-view pi_prio rq rq' p attr boost policy same e =
      let old = rq.task p in
      let wanted : Bool = elim attr.sched_policy [ none ↦ false | some q ↦ dl_policy q ] in
      let newprio = if wanted then negsuc 0 else pos 99 -ℤ pos attr.sched_priority in
      let flags = if boost && same_ℤ (rt_effective_prio pi_prio newprio) old.prio then 10 else 14 in
      let queued = is_queued rq p in
      let running = is_running rq p in
      let ends : Rq → Rq → Option Rq =
        λ off on. some (check_class_changed ext on p (off.task p).sched_class old.prio) in
      let puts : Rq → Task → Option Rq = λ off t.
        put_back ext (set_task off p t) p queued running
          (if ltb_ℤ old.prio t.prio then flags + 16 else flags)
        >>= ends off in
      let sets : Rq → Option Rq =
        λ off. setscheduler ext pi_prio (off.task p) attr boost >>= puts off in
      let (off, e1, rest) = bind_some (take_off ext rq p queued running flags) sets rq' e in
      let (t, e2, rest') =
        bind_some (setscheduler ext pi_prio (off.task p) attr boost) (puts off) rq' rest in
      let (on, e3, e4) =
        bind_some
          (put_back ext (set_task off p t) p queued running
            (if ltb_ℤ old.prio t.prio then flags + 16 else flags))
          (ends off) rq' rest' in
      let last : view (rq'.task p) ≡ view (on.task p) =
        subst (SameView on) (some_eq _ e4)
          (check_class_changed-SameView ext keeps.class on p (off.task p).sched_class old.prio) p in
      let back =
        put_back-SameView ext keeps.class (set_task off p t) on p queued running
          (if ltb_ℤ old.prio t.prio then flags + 16 else flags) e3 p in
      let at : view ((set_task off p t).task p) ≡ view t = ground arith in
      let off_view = take_off-SameView ext keeps.class rq off p queued running flags e1 p in
      let took = ap (λ (v : View). v.reset) off_view in
      let static = ap (λ (v : View). v.static_prio) off_view in
      last
      ∙ back
      ∙ at
      ∙ setscheduler-view pi_prio (off.task p) t attr boost e2
      ∙ view_after-eq attr attr.sched_policy policy (off.task p).policy same took static
