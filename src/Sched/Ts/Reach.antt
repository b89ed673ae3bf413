-- ===== src/Sched/Ts/Reach.antt =====
-- kernel/sched/ts.c, the runqueues that its operations reach from `init_ts_rq`, in any order.
use kernel_programming.Prelude.{
  ℕ, ◌-◌, ◌<◌, ◌≡◌, sym, ◌∙◌, subst, false, List, ◌∷◌, some, some_eq, arith, count, ℕ_discrete,
}
use kernel_programming.Prelude.Int.{pos_part, ◌≤ℤ◌}
use kernel_programming.Sched.{Rq, Task, set_task, has_flag, enqueue_wakeup}
use kernel_programming.Sched.Frame.{prio_of, prio_of-set_task_ne}
use kernel_programming.Sched.Ts.{
  init_ts_rq, enqueue_task_ts, dequeue_task_ts, yield_task_ts, task_tick_ts, pick_next_task_ts,
}
use kernel_programming.Sched.Ts.Prio.{IsTsPrio}
use kernel_programming.Sched.Ts.Init.{init_ts_rq_lem}
use kernel_programming.Sched.Ts.Invariant.{IsPlaced, IsWellQueued, IsUnqueued}
use kernel_programming.Sched.Ts.Steps.{
  enqueue-IsWellQueued, dequeue-IsWellQueued, yield-IsWellQueued,
}
use kernel_programming.Sched.Ts.Tick.{tick-keeps}
use kernel_programming.Sched.Ts.Pick.{pick_next_task_ts_lem}

-- What may happen to a runqueue: the operations of the class, but for the enqueue of a waking task;
-- any change of a task that is on no queue; and a switch to another task.
pub data Step : Rq → Rq → Type 0 where
  enqueues :
      (rq rq' : Rq) (p flags : ℕ)
      → has_flag flags enqueue_wakeup ≡ false
      → IsTsPrio (prio_of rq p)
      → IsUnqueued p rq.ts
      → enqueue_task_ts rq p flags ≡ some rq'
      → Step rq rq'
  dequeues : (rq : Rq) (p flags : ℕ) → Step rq (dequeue_task_ts rq p flags)
  yields : (rq rq' : Rq) → IsTsPrio (prio_of rq rq.curr) → yield_task_ts rq ≡ some rq' → Step rq rq'
  ticks : (rq rq' : Rq) (p : ℕ) → task_tick_ts rq p ≡ some rq' → Step rq rq'
  changes : (rq : Rq) (p : ℕ) (t : Task) → IsUnqueued p rq.ts → Step rq (set_task rq p t)
  switches : (rq : Rq) (next : ℕ) → Step rq (record rq { curr = next })

pub data Reach (rq : Rq) : Rq → Type 0 where
  here : Reach rq rq
  next : {rq1 rq2 : Rq} → Reach rq rq1 → Step rq1 rq2 → Reach rq rq2

change-IsWellQueued :
    (rq : Rq) (p : ℕ) (t : Task)
    → IsUnqueued p rq.ts
    → IsWellQueued rq
    → IsWellQueued (set_task rq p t)
change-IsWellQueued rq p t u v = record {
  placed = λ i q h c. elim (ℕ_discrete p q) [
    | yes e ↦ absurd (ground (arith, u i h, e))
    | no ne ↦ prio_of-set_task_ne rq p q t ne ∙ v.placed i q h c
  ];
  once = λ i q h. v.once i q h;
}

Step-IsWellQueued : {rq rq' : Rq} → Step rq rq' → IsWellQueued rq → IsWellQueued rq'
Step-IsWellQueued (enqueues rq rq' p flags asleep h u e) v =
    let (e', v') = enqueue-IsWellQueued rq p flags asleep h v u in
    subst IsWellQueued (some_eq _ (sym e' ∙ e)) v'
Step-IsWellQueued (dequeues rq p flags) v = (dequeue-IsWellQueued rq p flags v).0
Step-IsWellQueued (yields rq rq' h e) v =
    let (e', v') = yield-IsWellQueued rq h v in subst IsWellQueued (some_eq _ (sym e' ∙ e)) v'
Step-IsWellQueued (ticks rq rq' p e) v =
    let (rq1, e', v') = tick-keeps rq p v in subst IsWellQueued (some_eq rq1 (sym e' ∙ e)) v'
Step-IsWellQueued (changes rq p t u) v = change-IsWellQueued rq p t u v
Step-IsWellQueued (switches rq q) v = v

Reach-IsWellQueued : {rq rq' : Rq} → IsWellQueued rq → Reach rq rq' → IsWellQueued rq'
Reach-IsWellQueued v here = v
Reach-IsWellQueued v (next r s) = Step-IsWellQueued s (Reach-IsWellQueued v r)

-- After init_ts_rq and any steps in any order, but for the enqueue of a waking task, the task that is
-- picked has the best priority of all tasks queued and stands once, at the head of the queue of its
-- priority.
pub Reach-pick_next_task_ts :
    (put_prev_task : Rq → ℕ → Rq) (rq rq' : Rq) (queue : ℕ → List ℕ) (prev p : ℕ)
    → rq.ts ≡ init_ts_rq queue
    → Reach rq rq'
    → (pick_next_task_ts put_prev_task rq' prev).0 ≡ some p
    → ((i q : ℕ) → i < 40 → 0 < count q (rq'.ts i) → prio_of rq' p ≤ℤ prio_of rq' q)
      × ((rest : List ℕ) × (rq'.ts (139 - pos_part (prio_of rq' p)) ≡ p ∷ rest))
      × IsWellQueued rq'
Reach-pick_next_task_ts put_prev_task rq rq' queue prev p e r h =
    let fresh : IsWellQueued rq =
      subst (λ ts. IsPlaced ts (prio_of rq)) (sym e) ((init_ts_rq_lem queue (prio_of rq)).2) in
    let v = Reach-IsWellQueued fresh r in
    let (kept, best, head) = (pick_next_task_ts_lem put_prev_task rq' prev v).0 p h in
    (best, head, v)
