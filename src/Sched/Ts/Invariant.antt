-- ===== src/Sched/Ts/Invariant.antt =====
-- The invariant of the forty queues of kernel/sched/ts.c: each task queued stands once, on the
-- queue of its priority.
use kernel_programming.Prelude.{
  ℕ, ◌-◌, ◌≤◌, ◌<◌, ◌≡◌, ◌≢◌, List, [], ◌∷◌, ◌++◌, ℕ_discrete, count-remove-le, arith, count,
  count-append, count-remove_self,
}
use kernel_programming.Prelude.Int.{ℤ, pos}
use kernel_programming.Sched.Frame.{prio_of, ts-resched_curr, prio_of-resched_curr}
use kernel_programming.Sched.{resched_curr, Rq, update}
use kernel_programming.Sched.Ts.{list_del}

-- Of the queues and the tasks' priorities.
pub record IsPlaced (queue : ℕ → List ℕ) (prio : ℕ → ℤ) : Type 0 where
  pub placed : (i p : ℕ) → i < 40 → 0 < count p (queue i) → prio p ≡ pos (139 - i)
  pub once : (i p : ℕ) → i < 40 → count p (queue i) ≤ 1

abbrev pub IsWellQueued : Rq → Type 0
IsWellQueued rq = IsPlaced rq.ts (prio_of rq)

abbrev pub IsUnqueued : ℕ → (ℕ → List ℕ) → Type 0
IsUnqueued p queue = (i : ℕ) → i < 40 → count p (queue i) ≡ 0

pub list_del-IsUnqueued : (p : ℕ) (queue : ℕ → List ℕ) → IsUnqueued p (list_del p queue)
list_del-IsUnqueued p queue i h = count-remove_self p (queue i)

pub list_del-IsPlaced :
    (p : ℕ) (queue : ℕ → List ℕ) (prio : ℕ → ℤ)
    → IsPlaced queue prio
    → IsPlaced (list_del p queue) prio
list_del-IsPlaced p queue prio v = record {
  placed = λ i q h c. v.placed i q h (omega (arith, count-remove-le p q (queue i)));
  once = λ i q h. omega (arith, count-remove-le p q (queue i), v.once i q h);
}

-- A task that is on no queue may be put at the end of the queue of its new priority.
pub append-IsPlaced :
    (p idx : ℕ) (queue : ℕ → List ℕ) (prio prio' : ℕ → ℤ)
    → IsPlaced queue prio
    → IsUnqueued p queue
    → prio' p ≡ pos (139 - idx)
    → ((q : ℕ) → p ≢ q → prio' q ≡ prio q)
    → IsPlaced (update queue idx (queue idx ++ p ∷ [])) prio'
append-IsPlaced p idx queue prio prio' v u e same = record {
  placed = λ i q h c. elim (ℕ_discrete p q) [
    | yes eq ↦ ground (arith, count-append q (queue idx) (p ∷ []), u i h)
    | no ne ↦ ground (arith, count-append q (queue idx) (p ∷ []), same q ne, v.placed i q h)
  ];
  once = λ i q h. ground (arith, count-append q (queue idx) (p ∷ []), v.once i q h, u i h);
}

pub IsPlaced-congr :
    (queue queue' : ℕ → List ℕ) (prio prio' : ℕ → ℤ)
    → IsPlaced queue prio
    → ((i : ℕ) → queue' i ≡ queue i)
    → ((p : ℕ) → prio' p ≡ prio p)
    → IsPlaced queue' prio'
IsPlaced-congr queue queue' prio prio' v same_queue same_prio = record {
  placed = λ i p h c. rw (same_prio p) (v.placed i p h (rw (same_queue i) at c));
  once = λ i p h. rw (same_queue i) (v.once i p h);
}

-- To ask for a reschedule leaves the queues in order.
pub resched_curr-IsWellQueued : (rq : Rq) → IsWellQueued rq → IsWellQueued (resched_curr rq)
resched_curr-IsWellQueued rq v =
    IsPlaced-congr rq.ts (resched_curr rq).ts (prio_of rq) (prio_of (resched_curr rq)) v
      (λ i. rw (ts-resched_curr rq)) (prio_of-resched_curr rq)
