-- ===== src/Sched/Ts/Tick.antt =====
-- `task_tick_ts` of kernel/sched/ts.c: the timer tick of a time-sharing task.
use kernel_programming.Prelude.{
  ℕ, ◌<◌, ◌≡◌, refl, [], ◌∷◌, ◌++◌, arith, some, true, ◌==◌, Bool-cases, inl, inr, ◌∙◌, false,
  count, subst, count-append, some_eq, sym,
}
use kernel_programming.Sched.Frame.{
  prio_of, prio_of-set_task, prio_of-set_task_ne, ts-resched_curr, curr-resched_curr,
  prio_of-resched_curr, need_resched-resched_curr, time_slice-resched_curr,
}
use kernel_programming.Sched.{Rq, set_task, sched_ts, resched_curr, ℤ, pos, negsuc}
use kernel_programming.Sched.Ts.{list_del, task_tick_ts, get_new_prio, get_num_ticks, dec_slice}
use kernel_programming.Sched.Ts.Prio.{IsTsPrio, get_num_ticks_lem, get_new_prio-IsTsPrio}
use kernel_programming.Sched.Ts.Invariant.{
  IsWellQueued, list_del-IsUnqueued, list_del-IsPlaced, append-IsPlaced, resched_curr-IsWellQueued,
  IsPlaced-congr,
}
use kernel_programming.Sched.Ts.Steps.{push_back, index_of, index_of_lem, list_add_tail_lem}

-- The task after its slice expired, before the current task is told.
abbrev expired : Rq → ℕ → Rq
expired rq p =
    let t = rq.task p in
    let prio = get_new_prio t.prio 0 in
    record (set_task rq p (record t { prio = prio; time_slice = get_num_ticks prio })) {
      ts = push_back p prio (list_del p rq.ts);
    }

tick-expired :
    (rq : Rq) (p : ℕ)
    → (rq.task p).policy ≡ sched_ts
    → dec_slice (rq.task p).time_slice ≡ 0
    → task_tick_ts rq p ≡ some (resched_curr (expired rq p))
unfolding task_tick_ts
tick-expired rq p is_ts done =
    ground
      (arith, list_add_tail_lem p _ (list_del p rq.ts) (get_new_prio-IsTsPrio (rq.task p).prio 0))

-- The task stands on one of the forty queues.
abbrev pub IsQueued : ℕ → Rq → Type 0
IsQueued p rq = (i : ℕ) × (i < 40) × (0 < count p (rq.ts i))

tick-runs :
    (rq : Rq) (p : ℕ)
    → (rq.task p).policy ≡ sched_ts
    → (dec_slice (rq.task p).time_slice == 0) ≡ false
    → task_tick_ts rq p
      ≡ some (set_task rq p (record (rq.task p) { time_slice = dec_slice (rq.task p).time_slice }))
unfolding task_tick_ts
tick-runs rq p is_ts more = rw (is_ts, more) refl

index_of_bound : (prio : ℤ) → IsTsPrio prio → index_of prio < 40
index_of_bound (pos n) h = ground arith
index_of_bound (negsuc n) h = ground arith

expired-IsQueued : (rq : Rq) (p : ℕ) → IsQueued p (resched_curr (expired rq p))
expired-IsQueued rq p =
    let prio = get_new_prio (rq.task p).prio 0 in
    let i = index_of prio in
    let there : 0 < count p (list_del p rq.ts i ++ p ∷ []) =
      ground (arith, count-append p (list_del p rq.ts i) (p ∷ [])) in
    let bound : i < 40 =
      omega (arith, index_of_bound prio (get_new_prio-IsTsPrio (rq.task p).prio 0)) in
    (i, bound, rw (ts-resched_curr (expired rq p)) (ground (arith, there)))

expired-IsWellQueued : (rq : Rq) (p : ℕ) → IsWellQueued rq → IsWellQueued (expired rq p)
expired-IsWellQueued rq p v =
    append-IsPlaced p _ (list_del p rq.ts) (prio_of rq) (prio_of (expired rq p))
      (list_del-IsPlaced p rq.ts (prio_of rq) v) (list_del-IsUnqueued p rq.ts)
      (rw (prio_of-set_task rq p _) (index_of_lem _ (get_new_prio-IsTsPrio (rq.task p).prio 0)))
      (λ q ne. prio_of-set_task_ne rq p q _ ne)

-- The tick of a task of which nothing more is known than the order of the queues.
pub tick-keeps :
    (rq : Rq) (p : ℕ)
    → IsWellQueued rq
    → (rq' : Rq) × (task_tick_ts rq p ≡ some rq') × IsWellQueued rq'
tick-keeps rq p v = elim (Bool-cases ((rq.task p).policy == sched_ts)) [
  | inl is_ts ↦ elim (Bool-cases (dec_slice (rq.task p).time_slice == 0)) [
    | inl done ↦ (
      resched_curr (expired rq p),
      tick-expired rq p (ground arith) (ground arith),
      resched_curr-IsWellQueued _ (expired-IsWellQueued rq p v),
    )
    | inr more ↦ (
      set_task rq p (record (rq.task p) { time_slice = dec_slice (rq.task p).time_slice }),
      unfold task_tick_ts in rw (is_ts, more),
      IsPlaced-congr rq.ts rq.ts (prio_of rq) _ v (λ i. refl) (λ q. ground arith),
    )
  ]
  | inr other ↦ (rq, unfold task_tick_ts in rw other, v)
]

tick-IsQueued :
    (rq rq' : Rq) (p : ℕ)
    → (rq.task p).policy ≡ sched_ts
    → IsQueued p rq
    → task_tick_ts rq p ≡ some rq'
    → IsQueued p rq'
tick-IsQueued rq rq' p is_ts on e = elim (Bool-cases (dec_slice (rq.task p).time_slice == 0)) [
  | inl done ↦
      subst (IsQueued p) (some_eq _ (sym (tick-expired rq p is_ts (ground arith)) ∙ e))
        (expired-IsQueued rq p)
  | inr more ↦ subst (IsQueued p) (some_eq _ (sym (tick-runs rq p is_ts (ground arith)) ∙ e)) on
]

-- If the queues are in order and the task, when it is of the time-sharing policy, stands on a queue,
-- then its tick does not fault, every task queued stays on the queue of its priority, and a
-- time-sharing task still stands on a queue, also when it was moved.
pub tick-IsWellQueued :
    (rq : Rq) (p : ℕ)
    → IsWellQueued rq
    → ((rq.task p).policy ≡ sched_ts → IsQueued p rq)
    → (rq' : Rq) × (task_tick_ts rq p ≡ some rq')
      × IsWellQueued rq'
      × ((rq.task p).policy ≡ sched_ts → IsQueued p rq')
tick-IsWellQueued rq p v on =
    let (rq', e, v') = tick-keeps rq p v in
    (rq', e, v', λ is_ts. tick-IsQueued rq rq' p is_ts (on is_ts) e)

-- When the slice of a time-sharing task expires, it has the priority that `get_new_prio` gives, a
-- new slice of the length for that priority, which is not empty, a place at the end of that
-- priority's queue, and the current task is asked to reschedule.
pub tick_expires :
    (rq : Rq) (p : ℕ)
    → (rq.task p).policy ≡ sched_ts
    → (rq.task p).time_slice ≡ 1
    → let prio = get_new_prio (rq.task p).prio 0 in
      (rq' : Rq) × (task_tick_ts rq p ≡ some rq')
      × (prio_of rq' p ≡ prio)
      × ((rq'.task p).time_slice ≡ get_num_ticks prio)
      × (0 < get_num_ticks prio)
      × (rq'.ts (index_of prio) ≡ list_del p rq.ts (index_of prio) ++ p ∷ [])
      × ((rq'.task rq'.curr).need_resched ≡ true)
tick_expires rq p is_ts last = (
  resched_curr (expired rq p),
  tick-expired rq p is_ts (rw last),
  prio_of-resched_curr (expired rq p) p ∙ prio_of-set_task rq p _,
  time_slice-resched_curr (expired rq p) p ∙ ground arith,
  omega (arith, (get_num_ticks_lem _).0 (get_new_prio-IsTsPrio (rq.task p).prio 0)),
  rw (ts-resched_curr (expired rq p)) (ground arith),
  rw (curr-resched_curr (expired rq p)) (need_resched-resched_curr (expired rq p)),
)
