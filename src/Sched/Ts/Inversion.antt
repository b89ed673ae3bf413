-- ===== src/Sched/Ts/Inversion.antt =====
-- What the queue index of `enqueue_task_ts` (kernel/sched/ts.c) means for the choice of the next
-- task: a woken task with the better priority waits behind a worse one.
use kernel_programming.Prelude.{ℕ, ◌-◌, ◌<◌, ◌≡◌, ◌≢◌, true, List, [], ◌∷◌, arith, some}
use kernel_programming.Prelude.Int.{pos, pos_part, ◌≤ℤ◌}
use kernel_programming.Sched.Frame.{prio_of, prio_of-set_task, prio_of-set_task_ne}
use kernel_programming.Sched.{Rq, has_flag, enqueue_wakeup}
use kernel_programming.Sched.Ts.{pick_next_task_ts, enqueue_task_ts, get_new_prio}
use kernel_programming.Sched.Ts.Steps.{index_of, woken, enqueue_wakeup-misplaced}
use kernel_programming.Sched.Ts.Pick.{IsFirst-first_entry}

-- A task `p` wakes to a priority better than that of `q`, the head of the best queue that is not
-- empty, but its old priority was worse than that of `q`: the next task picked is `q`.
pub wakeup_inversion :
    (put_prev_task : Rq → ℕ → Rq) (rq : Rq) (p q flags prev j : ℕ) (rest : List ℕ)
    → has_flag flags enqueue_wakeup ≡ true
    → p ≢ q
    → pos 101 ≤ℤ prio_of rq p
    → prio_of rq p ≤ℤ pos 139
    → prio_of rq q ≡ pos (139 - j)
    → index_of (prio_of rq p) < j
    → j < 40
    → pos_part (get_new_prio (prio_of rq p) 1) < 139 - j
    → rq.ts j ≡ q ∷ rest
    → ((k : ℕ) → j < k → k < 40 → rq.ts k ≡ [])
    → (rq' : Rq) × (enqueue_task_ts rq p flags ≡ some rq')
      × ((pick_next_task_ts put_prev_task rq' prev).0 ≡ some q)
      × (pos_part (prio_of rq' p) < pos_part (prio_of rq' q))
wakeup_inversion put_prev_task rq p q flags prev j rest awake ne lo hi at behind lt better e above =
    let first =
      IsFirst-first_entry (woken rq p).ts 40 q j rest lt (ground (arith, e))
        (λ k l h. ground (arith, above k l h)) in
    (
      woken rq p,
      (enqueue_wakeup-misplaced rq p flags awake lo hi).0,
      unfold pick_next_task_ts in ground (arith, first),
      ground (arith, prio_of-set_task rq p, prio_of-set_task_ne rq p q),
    )
