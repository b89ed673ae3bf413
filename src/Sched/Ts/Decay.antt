-- ===== src/Sched/Ts/Decay.antt =====
-- kernel/sched/ts.c under `scheduler_tick` of kernel/sched/core.c: a time-sharing task that runs and
-- never sleeps.
use kernel_programming.Prelude.{
  ℕ, zero, suc, ◌+◌, ◌-◌, ◌≤◌, ◌<◌, ◌≡◌, ◌≢◌, refl, sym, ap, ◌∙◌, subst, arith, Option, some, ◌>>=◌,
  ltb, ◌==◌, ◌^◌, if◌then◌else◌, ℕ_discrete,
}
use kernel_programming.Prelude.Int.{ℤ, pos, pos_part}
use kernel_programming.Sched.{Rq, Task, set_task, sched_ts, ts_sched_class, resched_curr}
use kernel_programming.Sched.Frame.{prio_of}
use kernel_programming.Sched.Class.{External, class_ops}
use kernel_programming.Sched.Switch.{scheduler_tick}
use kernel_programming.Sched.Ts.{task_tick_ts, get_new_prio, get_num_ticks, dec_slice}
use kernel_programming.Sched.Ts.Prio.{
  IsTsPrio, get_new_prio-IsTsPrio, get_new_prio-expire, get_num_ticks_lem,
}
use kernel_programming.Sched.Ts.Tick.{tick_expires}

-- A time-sharing task with a slice to run.
pub record IsReady (t : Task) : Type 0 where
  pub class : t.sched_class ≡ ts_sched_class
  pub policy : t.policy ≡ sched_ts
  pub prio : IsTsPrio t.prio
  pub slice : 0 < t.time_slice
  pub small : t.time_slice < 2 ^ 32

-- The most ticks that are left until the lowest priority: the slice, and the whole slices of the
-- better levels that follow.
abbrev left : ℕ → ℕ → ℕ
left prio slice =
    if prio == 139
    then 0
    else slice
      + (if ltb prio 110 then 36 else if ltb prio 120 then 28 else if ltb prio 130 then 16 else 0)

left-expire :
    (prio : ℤ)
    → IsTsPrio prio
    → left (pos_part (get_new_prio prio 0)) (get_num_ticks (get_new_prio prio 0))
      ≤ left (pos_part prio) 1 - 1
left-expire prio h =
    let next = get_new_prio-expire prio h in
    let ticks = (get_num_ticks_lem (get_new_prio prio 0)).0 (get_new_prio-IsTsPrio prio 0) in
    rw (ticks, next) (ground (arith, h))

abbrev left_of : Task → ℕ
left_of t = left (pos_part t.prio) t.time_slice

-- What a tick does to the task that runs.
record IsTicked (rq rq' : Rq) : Type 0 where
  ticks : task_tick_ts rq rq.curr ≡ some rq'
  same : rq'.curr ≡ rq.curr
  ready : IsReady (rq'.task rq.curr)
  fewer : left_of (rq'.task rq.curr) ≤ left_of (rq.task rq.curr) - 1

tick_within :
    (rq : Rq)
    → IsReady (rq.task rq.curr)
    → (rq.task rq.curr).time_slice ≢ 1
    → (rq' : Rq) × IsTicked rq rq'
unfolding task_tick_ts
tick_within rq run ne =
    let t = rq.task rq.curr in
    let less : dec_slice t.time_slice ≡ t.time_slice - 1 = omega (arith, run.slice, run.small) in
    let t' : Task = record t { time_slice = dec_slice t.time_slice } in
    let at : (set_task rq rq.curr t').task rq.curr ≡ t' = ground arith in
    (
      set_task rq rq.curr t',
      record {
        ticks = ground (arith, run.policy, less, run.slice);
        same = refl;
        ready = subst IsReady (sym at) (record {
          class = run.class;
          policy = run.policy;
          prio = run.prio;
          slice = omega (arith, less, run.slice);
          small = omega (arith, less, run.small);
        });
        fewer = subst (λ x. left_of x ≤ left_of t - 1) (sym at) (ground (arith, less, run.slice));
      },
    )

-- A tick changes neither the running task nor any task's class or policy.
tick-kept :
    (rq rq' : Rq) (p : ℕ)
    → task_tick_ts rq p ≡ some rq'
    → (rq'.curr ≡ rq.curr)
      × ((rq'.task p).sched_class ≡ (rq.task p).sched_class)
      × ((rq'.task p).policy ≡ (rq.task p).policy)
unfolding task_tick_ts resched_curr
tick-kept rq rq' p e = (ground arith, ground arith, ground arith)

get_num_ticks-le : (prio : ℤ) → get_num_ticks prio ≤ 16
unfolding get_num_ticks
get_num_ticks-le prio = ground arith

tick_out :
    (rq : Rq)
    → IsReady (rq.task rq.curr)
    → (rq.task rq.curr).time_slice ≡ 1
    → (rq' : Rq) × IsTicked rq rq'
tick_out rq run last =
    let (rq', ticks, prio, slice, positive, _, _) = tick_expires rq rq.curr run.policy last in
    let (same, class, policy) = tick-kept rq rq' rq.curr ticks in
    (
      rq',
      record {
        ticks = ticks;
        same = same;
        ready = record {
          class = class ∙ run.class;
          policy = policy ∙ run.policy;
          prio = subst IsTsPrio (sym prio) (get_new_prio-IsTsPrio (prio_of rq rq.curr) 0);
          slice = omega (arith, slice, positive);
          small = omega (arith, slice, get_num_ticks-le (get_new_prio (prio_of rq rq.curr) 0));
        };
        fewer = rw (prio, slice, last) (left-expire (prio_of rq rq.curr) run.prio);
      },
    )

-- `n` ticks, and no switch to another task.
pub ticks : External → ℕ → Rq → Option Rq
ticks ext zero rq = some rq
ticks ext (suc n) rq = scheduler_tick ext rq >>= ticks ext n

left_zero : (t : Task) → IsReady t → left_of t ≡ 0 → t.prio ≡ pos 139
left_zero t run e = ground (arith, run.slice, run.prio)

tick-IsTicked : (rq : Rq) → IsReady (rq.task rq.curr) → (rq' : Rq) × IsTicked rq rq'
tick-IsTicked rq run = elim (ℕ_discrete (rq.task rq.curr).time_slice 1) [
  | yes last ↦ tick_out rq run last
  | no ne ↦ tick_within rq run ne
]

ticks-left :
    (ext : External) (n : ℕ) (rq : Rq)
    → IsReady (rq.task rq.curr)
    → left_of (rq.task rq.curr) ≤ n
    → (rq' : Rq) × (ticks ext n rq ≡ some rq')
      × (rq'.curr ≡ rq.curr)
      × (prio_of rq' rq.curr ≡ pos 139)
unfolding ticks scheduler_tick
ticks-left ext zero rq run le = (rq, refl, refl, left_zero (rq.task rq.curr) run (omega arith))
ticks-left ext (suc n) rq run le =
    let (rq1, t) = tick-IsTicked rq run in
    let ready1 = subst (λ p. IsReady (rq1.task p)) (sym t.same) t.ready in
    let le1 : left_of (rq1.task rq1.curr) ≤ n =
      subst (λ p. left_of (rq1.task p) ≤ n) (sym t.same) (omega (arith, t.fewer, le)) in
    let (rq2, e, same, low) = ticks-left ext n rq1 ready1 le1 in
    (
      rq2,
      ap (λ c. (class_ops ext c).task_tick rq rq.curr >>= ticks ext n) run.class
          ∙ ap (λ o. o >>= ticks ext n) t.ticks
          ∙ e,
      same ∙ t.same,
      subst (λ p. prio_of rq2 p ≡ pos 139) t.same low,
    )

-- A time-sharing task that runs and never sleeps has the lowest of the forty priorities after what is
-- left of its slice and 36 ticks more, from whatever of the forty it starts, and keeps it.
pub ticks-lowest :
    (ext : External) (n : ℕ) (rq : Rq)
    → IsReady (rq.task rq.curr)
    → (rq.task rq.curr).time_slice + 36 ≤ n
    → (rq' : Rq) × (ticks ext n rq ≡ some rq')
      × (rq'.curr ≡ rq.curr)
      × (prio_of rq' rq.curr ≡ pos 139)
ticks-lowest ext n rq run enough = ticks-left ext n rq run (ground (arith, enough))
