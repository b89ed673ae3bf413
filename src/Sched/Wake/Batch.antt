-- ===== src/Sched/Wake/Batch.antt =====
-- The queue of wakeups (`wake_q_add` and `wake_up_q` of kernel/sched/core.c).
use kernel_programming.Prelude.{
  ℕ, ◌+◌, ◌≤◌, ◌≡◌, refl, arith, Bool, false, some, List, [], ◌∷◌, count, count-append,
  if◌then◌else◌, ap, ◌<◌,
}
use kernel_programming.Sched.{Rq}
use kernel_programming.Sched.Class.{External}
use kernel_programming.Sched.Wake.{
  WakeQ, wake_q_add, unlink, wake_nodes, wake_up_q, wake_up_process,
}

-- A task stands once on the queue if its node is linked, and otherwise not at all; the queue has a
-- reference of each of its tasks.
pub record IsWakeQ (q : WakeQ) : Type 0 where
  pub once : (p : ℕ) → count p q.nodes ≡ (if q.linked p then 1 else 0)
  pub held : (p : ℕ) → count p q.nodes ≤ q.usage p

-- To add a task, once more or for the first time, keeps this: a task that is on the queue is not
-- added again and gets no second reference, and the order of the others stays.
pub wake_q_add-IsWakeQ :
    (q : WakeQ) (task : ℕ)
    → IsWakeQ q
    → IsWakeQ (wake_q_add q task)
      × ((p : ℕ)
          → (wake_q_add q task).usage p + count p q.nodes
            ≡ q.usage p + count p (wake_q_add q task).nodes)
      × (0 < count task (wake_q_add q task).nodes)
unfolding wake_q_add
wake_q_add-IsWakeQ q task v = (
  record {
    once = λ p. ground (arith, v.once p, count-append p q.nodes (task ∷ []));
    held = λ p. ground (arith, v.held p, count-append p q.nodes (task ∷ []));
  },
  λ p. ground (arith, count-append p q.nodes (task ∷ [])),
  ground (arith, v.once task, count-append task q.nodes (task ∷ [])),
)

module _ (ext : External) (IsFit : Rq → Type 0)
    (wakes : (rq : Rq) (p : ℕ)
      → IsFit rq
      → (r : Bool × Rq) × (wake_up_process ext rq p ≡ some r) × IsFit r.1) where
  unlink-IsWakeQ :
      (q : WakeQ) (task : ℕ) (rest : List ℕ)
      → IsWakeQ q
      → q.nodes ≡ task ∷ rest
      → IsWakeQ (unlink q task rest)
        × ((p : ℕ)
            → (unlink q task rest).usage p + count p (task ∷ rest) ≡ q.usage p + count p rest)
  unlink-IsWakeQ q task rest v e =
      let all = λ (p : ℕ). ap (count p) e in
      (
        record {
          once = λ p. ground (arith, v.once p, all p);
          held = λ p. ground (arith, v.held p, v.once p, all p);
        },
        λ p. ground (arith, v.held p, v.once p, all p),
      )

  wake_nodes_lem :
      (nodes : List ℕ) (q : WakeQ) (rq : Rq)
      → q.nodes ≡ nodes
      → IsWakeQ q
      → IsFit rq
      → (q' : WakeQ) × (rq' : Rq) × (wake_nodes ext nodes q rq ≡ some (q', rq'))
        × (q'.nodes ≡ [])
        × IsWakeQ q'
        × ((p : ℕ) → q'.usage p + count p nodes ≡ q.usage p)
        × IsFit rq'
  unfolding wake_nodes
  wake_nodes_lem [] q rq e v f = (q, rq, refl, e, v, λ p. ground arith, f)
  wake_nodes_lem (task ∷ rest) q rq e v f =
      let ((woken, rq1), done, f1) = wakes rq task f in
      let (v1, used) = unlink-IsWakeQ q task rest v e in
      let (q', rq', run, empty, v', usage, f') =
        wake_nodes_lem rest (unlink q task rest) rq1 refl v1 f1 in
      (q', rq', rw done run, empty, v', λ p. omega (arith, usage p, used p), f')

  -- When no wakeup of a fit runqueue faults, and each leaves a fit one, `wake_up_q` wakes the tasks in their order, empties the queue, unlinks
  -- every task, so that each may be added again, and gives back exactly one reference of each task
  -- that was on the queue and none of any other.
  pub wake_up_q-IsWakeQ :
      (q : WakeQ) (rq : Rq)
      → IsWakeQ q
      → IsFit rq
      → (q' : WakeQ) × (rq' : Rq) × (wake_up_q ext q rq ≡ some (q', rq'))
        × (q'.nodes ≡ [])
        × ((p : ℕ) → q'.linked p ≡ false)
        × ((p : ℕ) → q'.usage p + count p q.nodes ≡ q.usage p)
        × IsFit rq'
  unfolding wake_up_q
  wake_up_q-IsWakeQ q rq v f =
      let (q', rq', run, empty, v', usage, f') = wake_nodes_lem q.nodes q rq refl v f in
      (q', rq', run, empty, λ p. ground (arith, v'.once p, ap (count p) empty), usage, f')
