-- ===== src/Sched/Ts/Steps.antt =====
-- The operations of kernel/sched/ts.c that change the queues: what each does and whether it keeps
-- every task on the queue of its priority.
use kernel_programming.Prelude.{
  ℕ, ◌-◌, ◌<◌, ◌≡◌, refl, List, [], ◌∷◌, ◌++◌, arith, some, true, false, count-append,
}
use kernel_programming.Prelude.Int.{ℤ, pos, negsuc, pos_part, ◌≤ℤ◌, ◌-ℤ◌}
use kernel_programming.Sched.Frame.{prio_of, prio_of-set_task}
use kernel_programming.Sched.{Rq, update, set_task, has_flag, enqueue_wakeup}
use kernel_programming.Sched.Ts.{
  list_del, list_add_tail, enqueue_task_ts, dequeue_task_ts, yield_task_ts, get_new_prio, level_of,
}
use kernel_programming.Sched.Ts.Prio.{IsTsPrio}
use kernel_programming.Sched.Ts.Invariant.{
  IsWellQueued, IsUnqueued, list_del-IsUnqueued, list_del-IsPlaced, append-IsPlaced,
}

-- The queue index of a priority.
abbrev pub index_of : ℤ → ℕ
index_of prio = 139 - pos_part prio

abbrev pub push_back : ℕ → ℤ → (ℕ → List ℕ) → ℕ → List ℕ
push_back p prio queue = update queue (index_of prio) (queue (index_of prio) ++ p ∷ [])

pub list_add_tail_lem :
    (p : ℕ) (prio : ℤ) (queue : ℕ → List ℕ)
    → IsTsPrio prio
    → list_add_tail p (level_of prio) queue ≡ some (push_back p prio queue)
unfolding ◌-ℤ◌
list_add_tail_lem p (pos n) queue h = ground arith
list_add_tail_lem p (negsuc n) queue h = ground arith

pub index_of_lem : (prio : ℤ) → IsTsPrio prio → prio ≡ pos (139 - index_of prio)
index_of_lem (pos n) h = ground arith
index_of_lem (negsuc n) h = ground arith

-- A task that is on no queue and has one of the forty priorities is enqueued, when it is not
-- waking, at the end of the queue of its priority, and every queue stays in order.
pub enqueue-IsWellQueued :
    (rq : Rq) (p flags : ℕ)
    → has_flag flags enqueue_wakeup ≡ false
    → IsTsPrio (prio_of rq p)
    → IsWellQueued rq
    → IsUnqueued p rq.ts
    → let rq' = record rq { ts = push_back p (prio_of rq p) rq.ts } in
      (enqueue_task_ts rq p flags ≡ some rq') × IsWellQueued rq'
unfolding enqueue_task_ts
enqueue-IsWellQueued rq p flags asleep h v u = (
  rw (asleep, list_add_tail_lem p (prio_of rq p) rq.ts h),
  append-IsPlaced p (index_of (prio_of rq p)) rq.ts (prio_of rq) (prio_of rq) v u (index_of_lem _ h)
      (λ q ne. refl),
)

wakeup_better :
    (prio : ℤ) → pos 101 ≤ℤ prio → prio ≤ℤ pos 139 → pos_part (get_new_prio prio 1) < pos_part prio
unfolding get_new_prio
wakeup_better (pos n) lo hi = ground arith
wakeup_better (negsuc n) lo hi = ground arith

-- The queue after a waking task was put on it: the index is that of the old priority.
abbrev pub woken : Rq → ℕ → Rq
woken rq p =
    let t = rq.task p in
    record (set_task rq p (record t { prio = get_new_prio t.prio 1 })) {
      ts = push_back p t.prio rq.ts;
    }

woken-disordered :
    (rq : Rq) (p : ℕ)
    → pos_part (prio_of (woken rq p) p) < pos_part (prio_of rq p)
    → IsTsPrio (prio_of rq p)
    → ¬ IsWellQueued (woken rq p)
woken-disordered rq p better h v =
    let idx = index_of (prio_of rq p) in
    ground (arith, better, v.placed idx p, count-append p (rq.ts idx) (p ∷ []))

-- A waking task whose priority is not the best is put on the queue of its old priority, and has a
-- strictly better priority afterwards: the queues are out of order.
pub enqueue_wakeup-misplaced :
    (rq : Rq) (p flags : ℕ)
    → has_flag flags enqueue_wakeup ≡ true
    → pos 101 ≤ℤ prio_of rq p
    → prio_of rq p ≤ℤ pos 139
    → (enqueue_task_ts rq p flags ≡ some (woken rq p))
      × (pos_part (prio_of (woken rq p) p) < pos_part (prio_of rq p))
      × ¬ IsWellQueued (woken rq p)
unfolding enqueue_task_ts
enqueue_wakeup-misplaced rq p flags awake lo hi =
    let better : pos_part (prio_of (woken rq p) p) < pos_part (prio_of rq p) =
      rw (prio_of-set_task rq p _) (wakeup_better (prio_of rq p) lo hi) in
    (
      rw (awake, list_add_tail_lem p (prio_of rq p) rq.ts (omega arith, hi)),
      better,
      woken-disordered rq p better (omega arith, hi),
    )

-- A task that leaves is on no queue, and the others stay in order.
pub dequeue-IsWellQueued :
    (rq : Rq) (p flags : ℕ)
    → IsWellQueued rq
    → IsWellQueued (dequeue_task_ts rq p flags) × IsUnqueued p (dequeue_task_ts rq p flags).ts
unfolding dequeue_task_ts
dequeue-IsWellQueued rq p flags v =
    (list_del-IsPlaced p rq.ts (prio_of rq) v, list_del-IsUnqueued p rq.ts)

-- A current task with one of the forty priorities that yields goes to the end of its own queue, and
-- the queues stay in order.
pub yield-IsWellQueued :
    (rq : Rq)
    → IsTsPrio (prio_of rq rq.curr)
    → IsWellQueued rq
    → let rq' = record rq {
      ts = push_back rq.curr (prio_of rq rq.curr) (list_del rq.curr rq.ts);
    } in
      (yield_task_ts rq ≡ some rq') × IsWellQueued rq'
unfolding yield_task_ts
yield-IsWellQueued rq h v = (
  rw (list_add_tail_lem rq.curr (prio_of rq rq.curr) (list_del rq.curr rq.ts) h),
  append-IsPlaced rq.curr _ _ (prio_of rq) (prio_of rq)
      (list_del-IsPlaced rq.curr rq.ts (prio_of rq) v) (list_del-IsUnqueued rq.curr rq.ts)
      (index_of_lem _ h) (λ q ne. refl),
)
