-- ===== src/Sched/Calls/Trip.antt =====
-- kernel/sched/core.c, what a change of the policy leaves for a later query.
use kernel_programming.Prelude.{
  ℕ, ◌≡◌, refl, sym, ap, ◌∙◌, subst, Bool, true, false, Option, some, none, some_eq, ◌>>=◌,
  if◌then◌else◌, if_cases, arith, not, ◌||◌,
}
use kernel_programming.Prelude.Int.{ℤ}
use kernel_programming.Sched.{
  Rq, Task, SchedClass, stop_sched_class, dl_sched_class, rt_sched_class, ts_sched_class,
  fair_sched_class, idle_sched_class, dl_prio,
}
use kernel_programming.Sched.Class.{
  ClassOps, External, ts_ops, class_ops, enqueue_task, dequeue_task, put_prev_task, set_curr_task,
  check_class_changed, same_class, same_prio,
}
use kernel_programming.Sched.Ts.{enqueue_task_ts, dequeue_task_ts}
use kernel_programming.Sched.Change.{put_back, take_off}

-- What the queries show of a task.
pub record View : Type 0 where
  pub policy : ℕ
  pub rt_priority : ℕ
  pub reset : Bool
  pub static_prio : ℤ

abbrev pub view : Task → View
view t = record {
  policy = t.policy;
  rt_priority = t.rt_priority;
  reset = t.sched_reset_on_fork;
  static_prio = t.static_prio;
}

abbrev pub SameView : Rq → Rq → Type 0
SameView rq rq' = (q : ℕ) → view (rq'.task q) ≡ view (rq.task q)

-- The operations of a class do not touch what the queries show.
pub record KeepsView (ops : ClassOps) : Type 0 where
  pub enqueue :
      (rq rq' : Rq) (p flags : ℕ) → ops.enqueue_task rq p flags ≡ some rq' → SameView rq rq'
  pub dequeue :
      (rq rq' : Rq) (p flags : ℕ) → ops.dequeue_task rq p flags ≡ some rq' → SameView rq rq'
  pub put_prev : (rq : Rq) (p : ℕ) → SameView rq (ops.put_prev_task rq p)
  pub set_curr : (rq : Rq) → SameView rq (ops.set_curr_task rq)
  pub from : (rq : Rq) (p : ℕ) → SameView rq (ops.switched_from rq p)
  pub to : (rq : Rq) (p : ℕ) → SameView rq (ops.switched_to rq p)
  pub changed : (rq : Rq) (p : ℕ) (old : ℤ) → SameView rq (ops.prio_changed rq p old)

enqueue_task_ts-SameView :
    (rq rq' : Rq) (p flags : ℕ) → enqueue_task_ts rq p flags ≡ some rq' → SameView rq rq'
unfolding enqueue_task_ts
enqueue_task_ts-SameView rq rq' p flags e q = ground arith

ts_ops-KeepsView : KeepsView ts_ops
unfolding dequeue_task_ts
ts_ops-KeepsView = record {
  enqueue = enqueue_task_ts-SameView;
  dequeue = λ rq rq' p flags e q.
      ap (λ (r : Rq). view (r.task q)) (sym (some_eq (dequeue_task_ts rq p flags) e));
  put_prev = λ rq p q. refl;
  set_curr = λ rq q. refl;
  from = λ rq p q. refl;
  to = λ rq p q. refl;
  changed = λ rq p old q. refl;
}

pub bind_some {ℓ κ} :
    {A : Type ℓ} {B : Type κ} (o : Option A) (f : A → Option B) (b : B)
    → (o >>= f) ≡ some b
    → (a : A) × (o ≡ some a) × (f a ≡ some b)
bind_some none f b e = absurd (ground arith)
bind_some (some a) f b e = (a, refl, e)

-- A step that is taken or not.
maybe_SameView :
    (b : Bool) (rq rq' : Rq) (r : Option Rq)
    → (r ≡ some rq' → SameView rq rq')
    → (if b then r else some rq) ≡ some rq'
    → SameView rq rq'
maybe_SameView true rq rq' r h e = h e
maybe_SameView false rq rq' r h e = λ q. ap (λ (s : Rq). view (s.task q)) (sym (some_eq rq e))

module _ (ext : External) (keeps : (c : SchedClass) → KeepsView (ext.class c)) where
  class-KeepsView : (c : SchedClass) → KeepsView (class_ops ext c)
  class-KeepsView stop_sched_class = keeps stop_sched_class
  class-KeepsView dl_sched_class = keeps dl_sched_class
  class-KeepsView rt_sched_class = keeps rt_sched_class
  class-KeepsView ts_sched_class = ts_ops-KeepsView
  class-KeepsView fair_sched_class = keeps fair_sched_class
  class-KeepsView idle_sched_class = keeps idle_sched_class

  pub take_off-SameView :
      (rq rq' : Rq) (p : ℕ) (queued running : Bool) (flags : ℕ)
      → take_off ext rq p queued running flags ≡ some rq'
      → SameView rq rq'
  unfolding dequeue_task put_prev_task
  take_off-SameView rq rq' p queued running flags e q =
      let (rq1, e1, e2) =
        bind_some (if queued then dequeue_task ext rq p flags else some rq) _ rq' e in
      let first : SameView rq rq1 =
        maybe_SameView queued rq rq1 _
          ((class-KeepsView (rq.task p).sched_class).dequeue rq rq1 p flags) e1 in
      let last : SameView rq1 rq' = subst (SameView rq1) (some_eq _ e2) (
        if_cases (SameView rq1) running _ _
          (λ _. (class-KeepsView (rq1.task p).sched_class).put_prev rq1 p) (λ _ q. refl)) in
      last q ∙ first q

  pub put_back-SameView :
      (rq rq' : Rq) (p : ℕ) (queued running : Bool) (flags : ℕ)
      → put_back ext rq p queued running flags ≡ some rq'
      → SameView rq rq'
  unfolding enqueue_task set_curr_task
  put_back-SameView rq rq' p queued running flags e q =
      let (rq1, e1, e2) =
        bind_some (if queued then enqueue_task ext rq p flags else some rq) _ rq' e in
      let first : SameView rq rq1 =
        maybe_SameView queued rq rq1 _
          ((class-KeepsView (rq.task p).sched_class).enqueue rq rq1 p flags) e1 in
      let last : SameView rq1 rq' = subst (SameView rq1) (some_eq _ e2) (
        if_cases (SameView rq1) running _ _
          (λ _. (class-KeepsView (rq1.task p).sched_class).set_curr rq1) (λ _ q. refl)) in
      last q ∙ first q

  pub check_class_changed-SameView :
      (rq : Rq) (p : ℕ) (prev : SchedClass) (old : ℤ)
      → SameView rq (check_class_changed ext rq p prev old)
  unfolding check_class_changed
  check_class_changed-SameView rq p prev old =
      let of_p = (rq.task p).sched_class in
      let now = class-KeepsView of_p in
      let from = (class_ops ext prev).switched_from rq p in
      if_cases (SameView rq) (not (same_class prev of_p)) ((class_ops ext of_p).switched_to from p)
        _ (λ _ q. now.to from p q ∙ (class-KeepsView prev).from rq p q)
        (λ _.
          if_cases (SameView rq)
            (not (same_prio ext old (rq.task p).prio) || dl_prio (rq.task p).prio)
            ((class_ops ext of_p).prio_changed rq p old) rq (λ _. now.changed rq p old)
            (λ _ q. refl))
