-- ===== src/Sched/Ts/Init.antt =====
-- `init_ts_rq` of kernel/sched/ts.c, and the preemption test of a newly woken task.
use kernel_programming.Prelude.{
  ℕ, zero, suc, ◌+◌, ◌≤◌, ◌<◌, ◌≡◌, refl, List, [], arith, true, ◌⊎◌, inl, inr, ℕ_discrete, ◌∙◌,
}
use kernel_programming.Prelude.Int.{ℤ, ◌≤ℤ◌}
use kernel_programming.Sched.Frame.{prio_of, need_resched-resched_curr}
use kernel_programming.Sched.{Rq, update}
use kernel_programming.Sched.Ts.{init_queues, init_ts_rq, check_preempt_curr_ts}
use kernel_programming.Sched.Ts.Invariant.{IsPlaced}

init_queues_lem :
    (n i j : ℕ) (queue : ℕ → List ℕ)
    → (i ≤ j → j < i + n → init_queues n i queue j ≡ [])
      × ((j < i) ⊎ (i + n ≤ j) → init_queues n i queue j ≡ queue j)
unfolding init_queues
init_queues_lem zero i j queue = (λ lo hi. absurd (omega arith), λ out. refl)
init_queues_lem (suc n) i j queue =
    let ih = init_queues_lem n (i + 1) j (update queue i []) in
    (
      λ lo hi. elim (ℕ_discrete i j) [
        | yes e ↦ ih.1 (inl (omega arith)) ∙ ground (arith, e)
        | no ne ↦ ih.0 (omega arith) (omega arith)
      ],
      elim [
        | inl h ↦ ih.1 (inl (omega arith)) ∙ ground arith
        | inr h ↦ ih.1 (inr (omega arith)) ∙ ground arith
      ],
    )

-- Initialisation empties exactly the forty queues, which are then in order.
pub init_ts_rq_lem :
    (queue : ℕ → List ℕ) (prio : ℕ → ℤ)
    → ((j : ℕ) → j < 40 → init_ts_rq queue j ≡ [])
      × ((j : ℕ) → 40 ≤ j → init_ts_rq queue j ≡ queue j)
      × IsPlaced (init_ts_rq queue) prio
unfolding init_ts_rq
init_ts_rq_lem queue prio =
    let empty =
      λ (j : ℕ) (h : j < 40). (init_queues_lem 40 0 j queue).0 (omega arith) (omega arith) in
    (
      empty,
      λ j h. (init_queues_lem 40 0 j queue).1 (inr (omega arith)),
      record {
        placed = λ i p h c. absurd (ground (arith, empty i h));
        once = λ i p h. ground (arith, empty i h);
      },
    )

-- A newly woken task asks the current task to reschedule exactly when its priority is better, and
-- otherwise nothing changes.
pub check_preempt_curr_ts_lem :
    (rq : Rq) (p flags : ℕ)
    → let rq' = check_preempt_curr_ts rq p flags in
      (¬ (prio_of rq rq.curr ≤ℤ prio_of rq p) → (rq'.task rq.curr).need_resched ≡ true)
      × (prio_of rq rq.curr ≤ℤ prio_of rq p → rq' ≡ rq)
unfolding check_preempt_curr_ts
check_preempt_curr_ts_lem rq p flags =
    (λ h. ground (arith, need_resched-resched_curr rq), λ h. ground arith)
