-- ===== src/Sched/Ts/Pick.antt =====
-- `pick_next_task_ts` of kernel/sched/ts.c: the head of the best queue that is not empty.
use kernel_programming.Prelude.{
  ap, dec_lt, ℕ, zero, suc, ◌-◌, ◌≤◌, ◌<◌, ◌≡◌, refl, List, [], ◌∷◌, ◌++◌, arith, some, none, count,
  ℕ_discrete, remove-cons_once,
}
use kernel_programming.Prelude.Int.{pos_part, ◌≤ℤ◌}
use kernel_programming.Sched.Frame.{prio_of}
use kernel_programming.Sched.{Rq}
use kernel_programming.Sched.Ts.{first_entry, pick_next_task_ts, yield_task_ts, list_del}
use kernel_programming.Sched.Ts.Prio.{IsTsPrio}
use kernel_programming.Sched.Ts.Steps.{index_of, push_back, yield-IsWellQueued}
use kernel_programming.Sched.Ts.Invariant.{IsWellQueued}

-- `p` is the head of the queue `i`, and the better queues below `n` are empty.
record IsFirst (queue : ℕ → List ℕ) (n p : ℕ) : Type 0 where
  level : ℕ
  within : level < n
  rest : List ℕ
  head : queue level ≡ p ∷ rest
  above : (j : ℕ) → level < j → j < n → queue j ≡ []

IsFirst-suc :
    (queue : ℕ → List ℕ) (n p : ℕ) → queue n ≡ [] → IsFirst queue n p → IsFirst queue (suc n) p
IsFirst-suc queue n p e f = record {
  level = f.level;
  within = omega (arith, f.within);
  rest = f.rest;
  head = f.head;
  above = λ j lo hi. elim (ℕ_discrete j n) [ yes q ↦ rw q e | no ne ↦ f.above j lo (omega arith) ];
}

first_entry_step :
    (queue : ℕ → List ℕ) (n p : ℕ) (l : List ℕ)
    → queue n ≡ l
    → first_entry queue (suc n) ≡ some p
    → (first_entry queue n ≡ some p → IsFirst queue n p)
    → IsFirst queue (suc n) p
unfolding first_entry
first_entry_step queue n p [] e h ih = IsFirst-suc queue n p e (ih (rw (e, first_entry) at h))
first_entry_step queue n p (x ∷ rest) e h ih = record {
  level = n;
  within = omega arith;
  rest = rest;
  head = ground (arith, h);
  above = λ j lo hi. absurd (omega arith);
}

first_entry-IsFirst :
    (queue : ℕ → List ℕ) (n p : ℕ) → first_entry queue n ≡ some p → IsFirst queue n p
first_entry-IsFirst queue zero p h = absurd (unfold first_entry in cc)
first_entry-IsFirst queue (suc n) p h =
    first_entry_step queue n p (queue n) refl h (first_entry-IsFirst queue n p)

pub IsFirst-first_entry :
    (queue : ℕ → List ℕ) (n p : ℕ) (level : ℕ) (rest : List ℕ)
    → level < n
    → queue level ≡ p ∷ rest
    → ((j : ℕ) → level < j → j < n → queue j ≡ [])
    → first_entry queue n ≡ some p
unfolding first_entry
IsFirst-first_entry queue zero p level rest h e above = absurd (omega arith)
IsFirst-first_entry queue (suc n) p level rest h e above = elim (ℕ_discrete level n) [
  | yes q ↦ ground (arith, q, e)
  | no ne ↦
      rw (above n (omega arith) (omega arith), first_entry)
        (IsFirst-first_entry queue n p level rest (omega arith) e
          (λ j lo hi. above j lo (omega arith)))
]

queued-le-level :
    (queue : ℕ → List ℕ) (n p i q : ℕ) (f : IsFirst queue n p)
    → i < n
    → 0 < count q (queue i)
    → i ≤ f.level
queued-le-level queue n p i q f lt c = elim (dec_lt f.level i) [
  | yes h ↦ absurd (omega (arith, ap (count q) (f.above i h lt)))
  | no h ↦ omega arith
]

pub first_entry-none :
    (queue : ℕ → List ℕ) (n : ℕ) → first_entry queue n ≡ none → (j : ℕ) → j < n → queue j ≡ []
unfolding first_entry
first_entry-none queue zero h j lt = absurd (omega arith)
first_entry-none queue (suc n) h j lt = elim (ℕ_discrete j n) [
  | yes q ↦ ground (arith, q)
  | no ne ↦ first_entry-none queue n (ground (arith, h)) j (omega arith)
]

pub pick_next_task_ts_lem :
    (put_prev_task : Rq → ℕ → Rq) (rq : Rq) (prev : ℕ)
    → IsWellQueued rq
    → ((p : ℕ)
        → (pick_next_task_ts put_prev_task rq prev).0 ≡ some p
        → ((pick_next_task_ts put_prev_task rq prev).1 ≡ put_prev_task rq prev)
          × ((i q : ℕ) → i < 40 → 0 < count q (rq.ts i) → prio_of rq p ≤ℤ prio_of rq q)
          × ((rest : List ℕ) × (rq.ts (139 - pos_part (prio_of rq p)) ≡ p ∷ rest)))
      × ((pick_next_task_ts put_prev_task rq prev).0 ≡ none
          → ((pick_next_task_ts put_prev_task rq prev).1 ≡ rq) × ((i : ℕ) → i < 40 → rq.ts i ≡ []))
unfolding pick_next_task_ts
pick_next_task_ts_lem put_prev_task rq prev v = (
  λ p h.
      let f = first_entry-IsFirst rq.ts 40 p (ground (arith, h)) in
      let e = v.placed f.level p f.within (rw f.head (ground arith)) in
      (
        ground (arith, h),
        λ i q lt c.
            rw (e, v.placed i q lt c) (omega (arith, queued-le-level rq.ts 40 p i q f lt c)),
        (
          f.rest,
          let same : 139 - (139 - f.level) ≡ f.level = omega (arith, f.within) in
              rw (e, same) f.head,
        ),
      ),
  λ h. (ground (arith, h), first_entry-none rq.ts 40 (ground (arith, h))),
)

-- After the current task, at the head of the best queue that is not empty, has yielded, the task
-- behind it is picked.
pub yield-pick :
    (put_prev_task : Rq → ℕ → Rq) (rq : Rq) (next : ℕ) (rest : List ℕ)
    → IsTsPrio (prio_of rq rq.curr)
    → IsWellQueued rq
    → rq.ts (index_of (prio_of rq rq.curr)) ≡ rq.curr ∷ next ∷ rest
    → ((j : ℕ) → index_of (prio_of rq rq.curr) < j → j < 40 → rq.ts j ≡ [])
    → (rq' : Rq) × (yield_task_ts rq ≡ some rq')
      × (rq'.ts (index_of (prio_of rq rq.curr)) ≡ next ∷ rest ++ rq.curr ∷ [])
      × ((pick_next_task_ts put_prev_task rq' rq.curr).0 ≡ some next)
yield-pick put_prev_task rq next rest h v e above =
    let idx = index_of (prio_of rq rq.curr) in
    let rq' : Rq = record rq {
      ts = push_back rq.curr (prio_of rq rq.curr) (list_del rq.curr rq.ts);
    } in
    let once = v.once idx rq.curr (omega arith) in
    let moved : rq'.ts idx ≡ next ∷ rest ++ rq.curr ∷ [] =
      ground (arith, e, once, remove-cons_once rq.curr (next ∷ rest)) in
    let first =
      IsFirst-first_entry rq'.ts 40 next idx (rest ++ rq.curr ∷ []) (omega arith) moved
        (λ j lo hi. ground (arith, above j lo hi)) in
    (rq', (yield-IsWellQueued rq h v).0, moved, unfold pick_next_task_ts in ground (arith, first))
