-- ===== src/Sched/RtClass/Pause.antt =====
-- A real-time task that is counted out and in again, and keeps its place (kernel/sched/rt.c).
use kernel_programming.Prelude.{
  ℕ, ◌^◌, ◌<◌, ◌≡◌, refl, arith, true, false, some, count, ◌∙◌, length, ℕ_discrete, not, ap, List,
  [], ◌∷◌, ◌≤◌,
}
use kernel_programming.Prelude.Int.{pos}
use kernel_programming.Sched.{Rq, set_task}
use kernel_programming.Sched.Frame.{prio_of}
use kernel_programming.Sched.Rt.{
  RtEnv, enqueue_entity, dequeue_entity, move_entity, inc_rt_tasks, dec_rt_tasks, is_rr, is_empty,
}
use kernel_programming.Sched.Rt.Active.{
  FindsFirst, IsActive, total, total-two, total-positive, length-remove,
}
use kernel_programming.Sched.Rt.Frame.{IsSameRt, rt_index_lem}

is_empty_of_length : (l : List ℕ) → 0 < length l → is_empty l ≡ false
is_empty_of_length [] c = absurd (omega arith)
is_empty_of_length (x ∷ l) c = refl

length_of_full : (l : List ℕ) → is_empty l ≡ false → 0 < length l
length_of_full [] e = absurd (ground arith)
length_of_full (x ∷ l) e = omega arith

module _ (env : RtEnv) (first : FindsFirst env.find_first_bit) (p i : ℕ) (lt : i < 100) where
  -- The runqueue with the task counted out.
  abbrev pub paused : Rq → Rq
  paused rq =
      let t = rq.task p in
      set_task (record rq { rt = dec_rt_tasks env (is_rr t) i rq.rt }) p
        (record t { rt_on_rq = false })

  -- The runqueue with the task counted in.
  abbrev pub resumed : Rq → Rq
  resumed rq =
      let t = rq.task p in
      set_task (record rq { rt = inc_rt_tasks (is_rr t) i rq.rt }) p (record t { rt_on_rq = true })

  pub dequeue_entity_lem :
      (rq : Rq) (flags : ℕ)
      → move_entity flags ≡ false
      → prio_of rq p ≡ pos i
      → dequeue_entity env rq p flags ≡ some (paused rq)
  unfolding dequeue_entity
  dequeue_entity_lem rq flags stays e = rw (e, rt_index_lem i lt, stays) refl

  pub enqueue_entity_lem :
      (rq : Rq) (flags : ℕ)
      → move_entity flags ≡ false
      → prio_of rq p ≡ pos i
      → enqueue_entity env rq p flags ≡ some (resumed rq)
  unfolding enqueue_entity
  enqueue_entity_lem rq flags stays e = rw (e, rt_index_lem i lt, stays) refl

  -- The highest priority is that of the task or a better one.
  highest-le :
      (rq : Rq)
      → IsActive env.find_first_bit rq.rt (prio_of rq)
      → 0 < count p (rq.rt.queue i)
      → (rq.rt.highest_prio ≤ i) × (0 < length (rq.rt.queue rq.rt.highest_prio))
  highest-le rq v c =
      let full =
        is_empty_of_length (rq.rt.queue i) (omega (arith, length-remove p (rq.rt.queue i))) in
      let low = first rq.rt.bitmap i (omega (arith, lt)) (v.bits i lt ∙ ap not full) in
      rw v.highest
        (low.1, length_of_full _ (ground (arith, v.bits (env.find_first_bit rq.rt.bitmap), low)))

  -- The only task that is listed has the highest priority.
  alone_highest :
      (rq : Rq)
      → IsActive env.find_first_bit rq.rt (prio_of rq)
      → 0 < count p (rq.rt.queue i)
      → total 100 rq.rt.queue ≡ 1
      → rq.rt.highest_prio ≡ i
  alone_highest rq v c one = elim (ℕ_discrete rq.rt.highest_prio i) [
    | yes e ↦ e
    | no ne ↦
        let h = highest-le rq v c in
        absurd (
          omega (
            arith,
            total-two 100 rq.rt.highest_prio i rq.rt.queue (omega (arith, h.0)) lt ne h.1
                (omega (arith, length-remove p (rq.rt.queue i))),
          ))
  ]

  pub resumed-IsSameRt :
      (x y : Rq)
      → IsActive env.find_first_bit x.rt (prio_of x)
      → 0 < count p (x.rt.queue i)
      → total 100 x.rt.queue < 2 ^ 32
      → (x.task p).rt_on_rq ≡ true
      → IsSameRt (paused x) y
      → IsSameRt x (resumed y)
  unfolding dec_rt_tasks inc_rt_tasks
  resumed-IsSameRt x y v c few on s = record {
    queue = s.queue;
    bitmap = s.bitmap;
    highest = ground (
      arith,
      s.highest,
      alone_highest x v c,
      highest-le x v c,
      v.highest,
      v.running,
      total-positive 100 i p x.rt.queue lt c,
    );
    running = omega (arith, s.running, v.running, total-positive 100 i p x.rt.queue lt c);
    prio = λ q. ground (arith, s.prio q);
    listed = λ q. ground (arith, s.listed q);
  }
