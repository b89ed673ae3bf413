-- ===== src/Sched/Rt/Frame.antt =====
-- What the bandwidth of kernel/sched/rt.c leaves of a runqueue, and how it counts the tasks.
use kernel_programming.Sched.Class.{same_class}
use kernel_programming.Prelude.{
  ℕ, ◌+◌, ◌-◌, ◌%◌, ◌^◌, ◌≤◌, ◌<◌, ◌≡◌, refl, sym, subst, arith, Bool, true, false, List, ◌∙◌, ap,
  count, if◌then◌else◌, not, ◌==◌, ◌||◌, some,
}
use kernel_programming.Prelude.Int.{pos_part, pos}
use kernel_programming.Sched.{Rq, resched_curr, rt_sched_class}
use kernel_programming.Sched.Frame.{prio_of}
use kernel_programming.Sched.Rt.{
  RtEnv, dequeue_top_rt_rq, enqueue_top_rt_rq, sched_rt_runtime_exceeded, update_curr_rt,
  runtime_inf, rt_index,
}
use kernel_programming.Sched.Rt.Active.{IsActive, total}

pub rt_index_lem : (i : ℕ) → i < 100 → rt_index (pos i) ≡ some i
rt_index_lem i lt = ground arith

-- The array and the tasks' places are the same.
pub record IsSameRt (rq rq' : Rq) : Type 0 where
  pub queue : rq'.rt.queue ≡ rq.rt.queue
  pub bitmap : rq'.rt.bitmap ≡ rq.rt.bitmap
  pub highest : rq'.rt.highest_prio ≡ rq.rt.highest_prio
  pub running : rq'.rt.rt_nr_running ≡ rq.rt.rt_nr_running
  pub prio : (q : ℕ) → prio_of rq' q ≡ prio_of rq q
  pub listed : (q : ℕ) → (rq'.task q).rt_on_rq ≡ (rq.task q).rt_on_rq

pub IsSameRt-refl : (rq : Rq) → IsSameRt rq rq
IsSameRt-refl rq = record {
  queue = refl;
  bitmap = refl;
  highest = refl;
  running = refl;
  prio = λ q. refl;
  listed = λ q. refl;
}

pub IsSameRt-trans : (a b c : Rq) → IsSameRt a b → IsSameRt b c → IsSameRt a c
IsSameRt-trans a b c s t = record {
  queue = t.queue ∙ s.queue;
  bitmap = t.bitmap ∙ s.bitmap;
  highest = t.highest ∙ s.highest;
  running = t.running ∙ s.running;
  prio = λ q. t.prio q ∙ s.prio q;
  listed = λ q. t.listed q ∙ s.listed q;
}

pub resched_curr-IsSameRt : (rq : Rq) → IsSameRt rq (resched_curr rq)
unfolding resched_curr
resched_curr-IsSameRt rq = record {
  queue = ground arith;
  bitmap = ground arith;
  highest = ground arith;
  running = ground arith;
  prio = λ q. ground arith;
  listed = λ q. ground arith;
}

pub dequeue_top-IsSameRt : (rq : Rq) → IsSameRt rq (dequeue_top_rt_rq rq)
unfolding dequeue_top_rt_rq
dequeue_top-IsSameRt rq = record {
  queue = ground arith;
  bitmap = ground arith;
  highest = ground arith;
  running = ground arith;
  prio = λ q. ground arith;
  listed = λ q. ground arith;
}

pub enqueue_top-IsSameRt : (rq : Rq) → IsSameRt rq (enqueue_top_rt_rq rq)
unfolding enqueue_top_rt_rq
enqueue_top-IsSameRt rq = record {
  queue = ground arith;
  bitmap = ground arith;
  highest = ground arith;
  running = ground arith;
  prio = λ q. ground arith;
  listed = λ q. ground arith;
}

pub IsActive-IsSameRt :
    (find : (ℕ → Bool) → ℕ) (rq rq' : Rq)
    → IsSameRt rq rq'
    → IsActive find rq.rt (prio_of rq)
    → IsActive find rq'.rt (prio_of rq')
IsActive-IsSameRt find rq rq' s v = record {
  placed = λ i p l c.
      s.prio p ∙ v.placed i p l (subst (λ (q : ℕ → List ℕ). 0 < count p (q i)) s.queue c);
  once = λ i p l. rw s.queue (v.once i p l);
  bits = λ i l. rw (s.bitmap, s.queue) (v.bits i l);
  delimiter = rw s.bitmap v.delimiter;
  highest = s.highest ∙ v.highest ∙ ap find (sym s.bitmap);
  running = s.running ∙ v.running ∙ ap (total 100) (sym s.queue);
}

-- How the runqueue counts the real-time tasks: they are part of `nr_running` while `rt_queued` is
-- set, and it is set when there are any, unless they are throttled.
pub record IsCounted (rq : Rq) : Type 0 where
  pub counted : rq.rt.rt_queued ≡ true → rq.rt.rt_nr_running ≤ rq.nr_running
  pub offered : rq.rt.rt_queued ≡ true → 0 < rq.rt.rt_nr_running
  pub paused : rq.rt.rt_queued ≡ false → rq.rt.rt_throttled ≡ false → rq.rt.rt_nr_running ≡ 0
  pub small : rq.nr_running < 2 ^ 32

pub off_queue : (rq : Rq) → (dequeue_top_rt_rq rq).rt.rt_queued ≡ false
unfolding dequeue_top_rt_rq
off_queue rq = ground arith

-- The tasks counted otherwise.
abbrev pub others : Rq → ℕ
others rq = if rq.rt.rt_queued then rq.nr_running - rq.rt.rt_nr_running else rq.nr_running

pub dequeue_top-others : (rq : Rq) → IsCounted rq → (dequeue_top_rt_rq rq).nr_running ≡ others rq
unfolding dequeue_top_rt_rq
dequeue_top-others rq c = ground arith

pub enqueue_top-IsCounted :
    (rq : Rq)
    → rq.rt.rt_queued ≡ false
    → rq.nr_running + rq.rt.rt_nr_running < 2 ^ 32
    → IsCounted (enqueue_top_rt_rq rq)
unfolding enqueue_top_rt_rq
enqueue_top-IsCounted rq off few = ground arith

pub enqueue_top-others :
    (rq : Rq)
    → rq.rt.rt_queued ≡ false
    → rq.nr_running + rq.rt.rt_nr_running < 2 ^ 32
    → others (enqueue_top_rt_rq rq) ≡ rq.nr_running
unfolding enqueue_top_rt_rq
enqueue_top-others rq off few = ground arith

pub holds_if : (P : Rq → Type 0) (b : Bool) (x y : Rq) → P x → P y → P (if b then x else y)
holds_if P true x y px py = px
holds_if P false x y px py = py

pub resched_curr-IsCounted :
    (rq : Rq) → IsCounted rq → IsCounted (resched_curr rq) × (others (resched_curr rq) ≡ others rq)
unfolding resched_curr
resched_curr-IsCounted rq c = ground arith

module _ (env : RtEnv) where
  exceeded-IsSameRt : (rq : Rq) → IsSameRt rq (sched_rt_runtime_exceeded env rq).1
  unfolding sched_rt_runtime_exceeded dequeue_top_rt_rq
  exceeded-IsSameRt rq = record {
    queue = ground arith;
    bitmap = ground arith;
    highest = ground arith;
    running = ground arith;
    prio = λ q. ground arith;
    listed = λ q. ground arith;
  }

  -- To be throttled takes the tasks out of the count, and nothing else changes it.
  exceeded-IsCounted :
      (rq : Rq)
      → IsCounted rq
      → IsCounted (sched_rt_runtime_exceeded env rq).1
        × (others (sched_rt_runtime_exceeded env rq).1 ≡ others rq)
  unfolding sched_rt_runtime_exceeded dequeue_top_rt_rq
  exceeded-IsCounted rq c = ground arith

  -- The runqueue with the time of the current task accounted for.
  abbrev timed : Rq → Rq
  timed rq = record rq {
    rt = record rq.rt { rt_time = (rq.rt.rt_time + pos_part (env.delta_exec rq)) % 2 ^ 64 };
  }

  abbrev checked : Rq → Rq
  checked rq = (sched_rt_runtime_exceeded env (timed rq)).1

  -- The three ways through `update_curr_rt`.
  update_curr_rt_cases :
      (P : Rq → Type 0) (rq : Rq)
      → P rq
      → P (checked rq)
      → P (resched_curr (checked rq))
      → P (update_curr_rt env rq)
  unfolding update_curr_rt
  update_curr_rt_cases P rq same over told =
      holds_if P
        (not (same_class (rq.task rq.curr).sched_class rt_sched_class)
          || pos_part (env.delta_exec rq) == 0)
        _ _ same
        (holds_if P (not env.bandwidth_enabled || rq.rt.rt_runtime == runtime_inf) _ _ same
          (holds_if P (sched_rt_runtime_exceeded env (timed rq)).0 _ _ told over))

  timed-IsSameRt : (rq : Rq) → IsSameRt rq (timed rq)
  timed-IsSameRt rq = record {
    queue = refl;
    bitmap = refl;
    highest = refl;
    running = refl;
    prio = λ q. refl;
    listed = λ q. refl;
  }

  timed-IsCounted : (rq : Rq) → IsCounted rq → IsCounted (timed rq)
  timed-IsCounted rq c = record {
    counted = c.counted;
    offered = c.offered;
    paused = c.paused;
    small = c.small;
  }

  pub update_curr_rt-IsSameRt : (rq : Rq) → IsSameRt rq (update_curr_rt env rq)
  update_curr_rt-IsSameRt rq =
      let over =
        IsSameRt-trans rq (timed rq) (checked rq) (timed-IsSameRt rq)
          (exceeded-IsSameRt (timed rq)) in
      update_curr_rt_cases (IsSameRt rq) rq (IsSameRt-refl rq) over (
        IsSameRt-trans rq (checked rq) (resched_curr (checked rq)) over
          (resched_curr-IsSameRt (checked rq)))

  pub update_curr_rt-IsCounted :
      (rq : Rq)
      → IsCounted rq
      → IsCounted (update_curr_rt env rq) × (others (update_curr_rt env rq) ≡ others rq)
  update_curr_rt-IsCounted rq c =
      let over = exceeded-IsCounted (timed rq) (timed-IsCounted rq c) in
      let told = resched_curr-IsCounted (checked rq) over.0 in
      update_curr_rt_cases (λ x. IsCounted x × (others x ≡ others rq)) rq (c, refl) over
        (told.0, told.1 ∙ over.1)

  -- The policies and slices of the tasks stay, and the current task.
  pub update_curr_rt-slice :
      (rq : Rq) (q : ℕ)
      → let rq' = update_curr_rt env rq in
        ((rq'.task q).policy ≡ (rq.task q).policy)
        × ((rq'.task q).rt_time_slice ≡ (rq.task q).rt_time_slice)
        × (rq'.curr ≡ rq.curr)
  unfolding sched_rt_runtime_exceeded dequeue_top_rt_rq resched_curr
  update_curr_rt-slice rq q =
      update_curr_rt_cases
        (λ x.
          ((x.task q).policy ≡ (rq.task q).policy)
          × ((x.task q).rt_time_slice ≡ (rq.task q).rt_time_slice)
          × (x.curr ≡ rq.curr))
        rq (refl, refl, refl) (ground arith) (ground arith)
