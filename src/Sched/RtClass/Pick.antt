-- ===== src/Sched/RtClass/Pick.antt =====
-- The choice of a real-time task (`pick_next_task_rt` and `_pick_next_task_rt` of
-- kernel/sched/rt.c).
use kernel_programming.Prelude.{
  ℕ, ◌≤◌, ◌<◌, ◌≡◌, refl, arith, true, false, List, [], ◌∷◌, count, ◌⊎◌, inl, inr, not, ◌∙◌, ap,
  Bool-cases, if◌then◌else◌, if_cases,
}
use kernel_programming.Sched.{Rq, RtRq, rt_sched_class}
use kernel_programming.Sched.Class.{Picked, retry, nothing, bugged, picked, same_class}
use kernel_programming.Sched.Frame.{prio_of}
use kernel_programming.Sched.Rt.{RtEnv, is_empty, update_curr_rt}
use kernel_programming.Sched.Rt.Active.{FindsFirst, IsActive, total, total-listed, is_empty-cons}
use kernel_programming.Sched.Rt.Frame.{
  IsSameRt, IsActive-IsSameRt, update_curr_rt-IsSameRt, update_curr_rt-IsCounted, holds_if,
}
use kernel_programming.Sched.RtClass.{pick_next_rt_entity, pick_next_task_rt}
use kernel_programming.Sched.RtClass.Queue.{IsRtQueued}

-- The task is the first of its list, and no task that is listed has a better priority.
pub record IsFirst (rt : RtRq) (p : ℕ) : Type 0 where
  pub rest : List ℕ
  pub index : ℕ
  pub inside : index < 100
  pub head : rt.queue index ≡ p ∷ rest
  pub best : (j q : ℕ) → j < 100 → 0 < count q (rt.queue j) → index ≤ j

is_empty_of_count : (q : ℕ) (l : List ℕ) → 0 < count q l → is_empty l ≡ false
is_empty_of_count q [] c = absurd (omega arith)
is_empty_of_count q (x ∷ l) c = refl

-- What each result of `pick_next_task_rt` on `rq` says of the runqueue that it leaves.
abbrev pub IsRightPick : Rq → Picked → Rq → Type 0
IsRightPick rq retry rq' = rq' ≡ rq
IsRightPick rq nothing rq' = (total 100 rq'.rt.queue ≡ 0) ⊎ (rq'.rt.rt_throttled ≡ true)
IsRightPick rq bugged rq' = ⊥
IsRightPick rq (picked p) rq' = IsFirst rq'.rt p

module _ (env : RtEnv) (first : FindsFirst env.find_first_bit) where
  pub pick_next_rt_entity-IsFirst :
      (rq : Rq)
      → IsActive env.find_first_bit rq.rt (prio_of rq)
      → 0 < rq.rt.rt_nr_running
      → (p : ℕ) × (pick_next_rt_entity env rq.rt ≡ picked p) × IsFirst rq.rt p
  unfolding pick_next_rt_entity
  pick_next_rt_entity-IsFirst rq v some_task =
      let (j, lt, full) = total-listed 100 rq.rt.queue (omega (arith, v.running)) in
      let bit : rq.rt.bitmap j ≡ true = ground (arith, v.bits j lt) in
      let low = first rq.rt.bitmap j (omega (arith, lt)) bit in
      let k = env.find_first_bit rq.rt.bitmap in
      let inside : k < 100 = omega (arith, low) in
      let (p, rest, e) = is_empty-cons (rq.rt.queue k) (ground (arith, v.bits k inside, low)) in
      (
        p,
        ground (arith, e),
        record {
          rest = rest;
          index = k;
          inside = inside;
          head = e;
          best = λ i q l c.
              (first rq.rt.bitmap i (omega (arith, l))
                (v.bits i l ∙ ap not (is_empty_of_count q (rq.rt.queue i) c))).1;
        },
      )

  nothing_right :
      (rq rq' : Rq)
      → IsRtQueued env.find_first_bit rq'
      → rq'.rt.rt_queued ≡ false
      → IsRightPick rq nothing rq'
  nothing_right rq rq' v off = elim (Bool-cases rq'.rt.rt_throttled) [
    | inl over ↦ inr over
    | inr free ↦ inl (omega (arith, v.active.running, v.counts.paused off free))
  ]

  offered_right :
      (rq rq1 rq2 : Rq)
      → IsRtQueued env.find_first_bit rq1
      → IsSameRt rq1 rq2
      → rq1.rt.rt_queued ≡ true
      → IsRightPick rq (pick_next_rt_entity env rq2.rt) rq2
  offered_right rq rq1 rq2 v s on =
      let v2 = IsActive-IsSameRt env.find_first_bit rq1 rq2 s v.active in
      let (p, same, best) =
        pick_next_rt_entity-IsFirst rq2 v2 (omega (arith, s.running, v.counts.offered on)) in
      rw same best

  update_curr_rt-IsRtQueued :
      (rq : Rq)
      → IsRtQueued env.find_first_bit rq
      → IsRtQueued env.find_first_bit (update_curr_rt env rq)
  update_curr_rt-IsRtQueued rq v = record {
    active = IsActive-IsSameRt env.find_first_bit rq _ (update_curr_rt-IsSameRt env rq) v.active;
    counts = (update_curr_rt-IsCounted env rq v.counts).0;
  }

  -- Whichever way the choice ends, it is right: a retry leaves the runqueue as it is; no task is
  -- offered only if there is none or the class is throttled; a task that is offered is the first of
  -- the list of the best priority that has a task; and the BUG_ONs are never met. The previous
  -- task's class leaves the real-time tasks where they are.
  pub pick_next_task_rt-IsRightPick :
      (put_prev_task : Rq → ℕ → Rq) (rq : Rq) (prev : ℕ)
      → ((x : Rq) → IsSameRt x (put_prev_task x prev))
      → IsRtQueued env.find_first_bit rq
      → let (pick, rq') = pick_next_task_rt env put_prev_task rq prev in IsRightPick rq pick rq'
  unfolding pick_next_task_rt
  pick_next_task_rt-IsRightPick put rq prev frame v =
      let rq1 =
        if same_class (rq.task prev).sched_class rt_sched_class
        then update_curr_rt env rq
        else rq in
      let v1 : IsRtQueued env.find_first_bit rq1 =
        holds_if (IsRtQueued env.find_first_bit)
          (same_class (rq.task prev).sched_class rt_sched_class) _ _
          (update_curr_rt-IsRtQueued rq v) v in
      if_cases {A = Picked × Rq} (λ r. IsRightPick rq r.0 r.1) _ (retry, rq) _ (λ pulls. refl)
        (λ stays.
          if_cases {A = Picked × Rq} (λ r. IsRightPick rq r.0 r.1) (not rq1.rt.rt_queued)
            (nothing, rq1) (pick_next_rt_entity env (put rq1 prev).rt, put rq1 prev)
            (λ off. nothing_right rq rq1 v1 (ground arith))
            (λ on. offered_right rq rq1 (put rq1 prev) v1 (frame rq1) (ground arith)))
