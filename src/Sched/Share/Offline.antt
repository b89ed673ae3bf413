-- ===== src/Sched/Share/Offline.antt =====
-- kernel/sched/rt.c, `__disable_runtime` and `__enable_runtime`: a CPU leaves the domain and comes
-- back.
use kernel_programming.Prelude.{
  ℕ, ◌+◌, ◌-◌, ◌*◌, ◌^◌, ◌<◌, ◌≤◌, ◌≡◌, refl, sym, ap, ◌∙◌, true, false, List, ltb, ◌==◌, arith,
  count, if_cases, Bool-cases, inl, inr, Option, some, ◌||◌, zero, suc,
}
use kernel_programming.Sched.{Rq, resched_curr}
use kernel_programming.Sched.Rt.{RtEnv, runtime_inf, enqueue_top_rt_rq}
use kernel_programming.Sched.RtClass.{sched_rt_rq_enqueue}
use kernel_programming.Sched.Share.{
  Cpus, runtime, time, make_infinite, sub_u64, reclaim_loop, disable_runtime, after_reclaim,
}
use kernel_programming.Sched.Share.Sums.{
  share, is_on, sum_over, mask, sum_over-eq, share_on, share-le, sum_over-mask,
}
use kernel_programming.Sched.Share.Domain.{IsShared, IsDomain, share_beside, total-lt}
use kernel_programming.Sched.Share.Reclaim.{reclaim_takes, reclaim_gives, IsDone}

enqueue-runtime :
    (env : RtEnv) (rq : Rq) → (sched_rt_rq_enqueue env rq).rt.rt_runtime ≡ rq.rt.rt_runtime
unfolding sched_rt_rq_enqueue enqueue_top_rt_rq resched_curr
enqueue-runtime env rq = ground arith

enqueue-time : (env : RtEnv) (rq : Rq) → (sched_rt_rq_enqueue env rq).rt.rt_time ≡ rq.rt.rt_time
unfolding sched_rt_rq_enqueue enqueue_top_rt_rq resched_curr
enqueue-time env rq = ground arith

-- The runqueue of a CPU that has left.
abbrev lifted : Rq → Rq
lifted rq = record rq { rt = record rq.rt { rt_runtime = runtime_inf; rt_throttled = false } }

runtime-make_infinite :
    (env : RtEnv) (span : List ℕ) (this : ℕ) (c : Cpus) (j : ℕ)
    → runtime (make_infinite env span this c) j ≡ mask this (runtime c) j
unfolding make_infinite runtime
runtime-make_infinite env span this c j = ground (arith, enqueue-runtime env (lifted (c this)))

time-make_infinite :
    (env : RtEnv) (span : List ℕ) (this : ℕ) (c : Cpus) (j : ℕ)
    → time (make_infinite env span this c) j ≡ time c j
unfolding make_infinite time
time-make_infinite env span this c j = ground (arith, enqueue-time env (lifted (c this)))

-- A CPU leaves when it has its runtime back, or never had one.
infinite-IsShared :
    (env : RtEnv) (span : List ℕ) (this : ℕ) (c : Cpus)
    → sum_over share (mask this (runtime c)) span
      ≡ sum_over is_on (mask this (runtime c)) span * env.def_runtime
    → ((j : ℕ) → time c j < 2 ^ 62)
    → IsShared env span (make_infinite env span this c)
infinite-IsShared env span this c e times =
    let at = λ (h : ℕ → ℕ).
      sum_over-eq h (runtime (make_infinite env span this c)) (mask this (runtime c)) span
        (λ j p. runtime-make_infinite env span this c j) in
    record {
      total = at share ∙ e ∙ ap (λ n. n * env.def_runtime) (sym (at is_on));
      times = λ j. rw (time-make_infinite env span this c j) (times j);
    }

pub infinite-at :
    (env : RtEnv) (span : List ℕ) (this : ℕ) (c : Cpus)
    → runtime (make_infinite env span this c) this ≡ runtime_inf
infinite-at env span this c = runtime-make_infinite env span this c this ∙ ground arith

some_left : (n b x r : ℕ) → x + r ≡ n * b + b → b < r → 0 < n
some_left zero b x r e p = absurd (omega arith)
some_left (suc n) b x r e p = omega arith

module _ (env : RtEnv) (span : List ℕ) (this : ℕ) (c : Cpus) (d : IsDomain env span)
    (h : IsShared env span c) (at_once : count this span ≡ 1) where
  abbrev Leaves : Option Cpus → Type 0
  Leaves o = (c' : Cpus) × (o ≡ some c') × IsShared env span c' × (runtime c' this ≡ runtime_inf)

  -- The end of the call, when the loop leaves nothing wanting.
  Leaves-after :
      (r : ℕ × Cpus) (lost gained : ℕ)
      → IsDone env span this span c lost gained r
      → sum_over share (mask this (runtime c)) span + gained
        ≡ sum_over is_on (mask this (runtime c)) span * env.def_runtime + lost
      → Leaves (after_reclaim env span this r)
  Leaves-after r lost gained done e =
      let c' = make_infinite env span this r.1 in
      let total : sum_over share (mask this (runtime r.1)) span
          ≡ sum_over is_on (mask this (runtime r.1)) span * env.def_runtime =
        omega (arith, e, done.1.total, ap (λ n. n * env.def_runtime) done.1.enabled) in
      (
        c',
        rw (done.0) refl,
        infinite-IsShared env span this r.1 total (λ j. rw (done.1.times j) (h.times j)),
        infinite-at env span this r.1,
      )

  others :
      runtime c this < 2 ^ 62
      → sum_over share (mask this (runtime c)) span + runtime c this
        ≡ sum_over is_on (mask this (runtime c)) span * env.def_runtime + env.def_runtime
  others small =
      let beside = share_beside (runtime c) this span at_once small in
      omega (arith, beside.0, h.total, ap (λ n. n * env.def_runtime) beside.1)

  enabled_small : (runtime c this == runtime_inf) ≡ false → runtime c this < 2 ^ 62
  enabled_small q = omega (
    arith,
    share-le (runtime c) this span (omega (arith, at_once)),
    total-lt env span c d h,
    share_on (runtime c this) q,
  )

  pub without :
      (runtime c this == runtime_inf || runtime c this == env.def_runtime) ≡ true
      → sum_over share (mask this (runtime c)) span
        ≡ sum_over is_on (mask this (runtime c)) span * env.def_runtime
  without q = elim (Bool-cases (runtime c this == runtime_inf)) [
    | inl inf ↦
        let shares = sum_over-mask share (runtime c) this span refl at_once in
        let ons = sum_over-mask is_on (runtime c) this span refl at_once in
        let no_share : share (runtime c this) ≡ 0 = ground arith in
        let no_on : is_on (runtime c this) ≡ 0 = ground arith in
        let count_on : sum_over is_on (runtime c) span
            ≡ sum_over is_on (mask this (runtime c)) span =
          omega (arith, ons, no_on) in
        omega (arith, h.total, shares, no_share, ap (λ n. n * env.def_runtime) count_on)
    | inr fin ↦
        let own : runtime c this ≡ env.def_runtime = ground arith in
        omega (arith, others (enabled_small fin), own)
  ]

  takes_back :
      runtime c this < 2 ^ 62
      → runtime c this < env.def_runtime
      → Leaves (
          after_reclaim env span this
            (reclaim_loop env span this span (sub_u64 env.def_runtime (runtime c this)) c))
  takes_back small less =
      let rest = others small in
      let beside = share_beside (runtime c) this span at_once small in
      let bound = total-lt env span c d h in
      let want = env.def_runtime - runtime c this in
      let fits : sum_over share (mask this (runtime c)) span < 2 ^ 62 =
        omega (arith, beside.0, bound) in
      let enough : want ≤ sum_over share (mask this (runtime c)) span = omega (arith, rest, less) in
      let word : sub_u64 env.def_runtime (runtime c this) ≡ want =
        omega (arith, less, enough, fits, small) in
      rw word (
        Leaves-after (reclaim_loop env span this span want c) want 0
          (reclaim_takes env span this span want c d.nodup (omega (arith, less)) enough fits)
          (omega (arith, rest, less)))

  gives_back :
      runtime c this < 2 ^ 62
      → env.def_runtime < runtime c this
      → Leaves (
          after_reclaim env span this
            (reclaim_loop env span this span (sub_u64 env.def_runtime (runtime c this)) c))
  gives_back small more =
      let rest = others small in
      let beside = share_beside (runtime c) this span at_once small in
      let bound = total-lt env span c d h in
      let g = runtime c this - env.def_runtime in
      let fits : sum_over share (mask this (runtime c)) span + g < 2 ^ 62 =
        omega (arith, beside.0, bound) in
      let word : sub_u64 env.def_runtime (runtime c this) ≡ 2 ^ 64 - g =
        omega (arith, more, small) in
      let some_on : 0 < sum_over is_on (mask this (runtime c)) span =
        some_left (sum_over is_on (mask this (runtime c)) span) env.def_runtime
          (sum_over share (mask this (runtime c)) span) (runtime c this) rest more in
      rw word (
        Leaves-after (reclaim_loop env span this span (2 ^ 64 - g) c) 0 g
          (reclaim_gives env span this span g c d.nodup (omega (arith, more)) some_on fits)
          (omega (arith, rest, more)))

-- When a CPU of the domain goes offline, it takes back exactly the runtime that it has lent, or gives
-- back what it has borrowed: the call never stops on its BUG_ON, the CPU has no limit any more, and
-- the enabled CPUs that are left still have the default runtime each, taken together.
pub disable_runtime-IsShared :
    (env : RtEnv) (span : List ℕ) (this : ℕ) (c : Cpus)
    → IsDomain env span
    → IsShared env span c
    → count this span ≡ 1
    → (c' : Cpus) × (disable_runtime env span true this c ≡ some c')
      × IsShared env span c'
      × (runtime c' this ≡ runtime_inf)
unfolding disable_runtime
disable_runtime-IsShared env span this c d h once =
    if_cases (Leaves env span this c d h once)
      (runtime c this == runtime_inf || runtime c this == env.def_runtime) _ _
      (λ q. (
        make_infinite env span this c,
        refl,
        infinite-IsShared env span this c (without env span this c d h once q) h.times,
        infinite-at env span this c,
      ))
      (λ q.
        let small = enabled_small env span this c d h once (ground arith) in
        elim (Bool-cases (ltb (runtime c this) env.def_runtime)) [
          | inl less ↦ takes_back env span this c d h once small (ground arith)
          | inr more ↦ gives_back env span this c d h once small (ground arith)
        ])
