-- ===== src/Sched/Share/Domain.antt =====
-- kernel/sched/rt.c, the runtime of a domain: what the enabled CPUs have together.
use kernel_programming.Prelude.{
  ℕ, ◌+◌, ◌*◌, ◌^◌, ◌<◌, ◌≤◌, ◌≡◌, refl, ap, ◌∙◌, List, [], ◌∷◌, ltb, arith, count, if_cases,
  length,
}
use native.Mathlib.Nat.{mul-le-mul_right}
use kernel_programming.Sched.Rt.{RtEnv}
use kernel_programming.Sched.Share.{
  Cpus, runtime, time, do_balance_runtime, balance_runtime, borrow_loop,
}
use kernel_programming.Sched.Share.Sums.{
  share, is_on, sum_over, mask, IsNoDup, sum_over-mask, share_small, is_on_small,
}
use kernel_programming.Sched.Share.Balance.{borrow_loop-IsLent}

-- Every enabled CPU of the domain had the same runtime at first, and what they have together stays.
pub record IsShared (env : RtEnv) (span : List ℕ) (cpus : Cpus) : Type 0 where
  pub total :
      sum_over share (runtime cpus) span ≡ sum_over is_on (runtime cpus) span * env.def_runtime
  pub times : (j : ℕ) → time cpus j < 2 ^ 62

-- A domain of distinct CPUs, whose runtimes are far from an overflow.
pub record IsDomain (env : RtEnv) (span : List ℕ) : Type 0 where
  pub nodup : IsNoDup span
  pub period : env.rt_period < 2 ^ 62
  pub bound : length span * env.def_runtime < 2 ^ 62

on-le : (f : ℕ → ℕ) (is : List ℕ) → sum_over is_on f is ≤ length is
on-le f [] = omega arith
on-le f (i ∷ is) = ground (arith, on-le f is)

pub total-lt :
    (env : RtEnv) (span : List ℕ) (cpus : Cpus)
    → IsDomain env span
    → IsShared env span cpus
    → sum_over share (runtime cpus) span < 2 ^ 62
total-lt env span cpus d h =
    let le = mul-le-mul_right env.def_runtime (on-le (runtime cpus) span) in
    omega (arith, le, h.total, d.bound)

-- The other CPUs beside one that has a small runtime.
pub share_beside :
    (f : ℕ → ℕ) (this : ℕ) (span : List ℕ)
    → count this span ≡ 1
    → f this < 2 ^ 62
    → (sum_over share f span ≡ sum_over share (mask this f) span + f this)
      × (sum_over is_on f span ≡ sum_over is_on (mask this f) span + 1)
share_beside f this span c h = (
  sum_over-mask share f this span refl c
      ∙ ap (λ x. sum_over share (mask this f) span + x) (share_small (f this) h),
  sum_over-mask is_on f this span refl c
      ∙ ap (λ x. sum_over is_on (mask this f) span + x) (is_on_small (f this) h),
)

-- When an enabled CPU has used up its runtime, what it borrows never lifts it above the period, it
-- loses nothing, and what all enabled CPUs of the domain have together stays the same.
pub balance_runtime-IsShared :
    (env : RtEnv) (span : List ℕ) (this : ℕ) (cpus : Cpus)
    → IsDomain env span
    → IsShared env span cpus
    → count this span ≡ 1
    → runtime cpus this ≤ env.rt_period
    → IsShared env span (balance_runtime env span this cpus)
      × (runtime (balance_runtime env span this cpus) this ≤ env.rt_period)
      × (runtime cpus this ≤ runtime (balance_runtime env span this cpus) this)
unfolding balance_runtime do_balance_runtime
balance_runtime-IsShared env span this cpus d h c r =
    let before = share_beside (runtime cpus) this span c (omega (arith, d.period)) in
    let lent =
      borrow_loop-IsLent env span this d.period span cpus d.nodup r
        (omega (arith, total-lt env span cpus d h, before.0)) h.times in
    let after =
      share_beside (runtime (borrow_loop env span this span cpus)) this span c
        (omega (arith, d.period, lent.within)) in
    let ons : sum_over is_on (runtime (borrow_loop env span this span cpus)) span
        ≡ sum_over is_on (runtime cpus) span =
      omega (arith, before.1, after.1, lent.enabled) in
    if_cases
      (λ c'.
        IsShared env span c'
        × (runtime c' this ≤ env.rt_period)
        × (runtime cpus this ≤ runtime c' this))
      (ltb (runtime cpus this) (time cpus this)) _ _
      (λ _. (
        record {
          total =
              omega
                (arith, before.0, after.0, lent.total, h.total, ap (λ n. n * env.def_runtime) ons);
          times = λ j. rw (lent.times j) (h.times j);
        },
        lent.within,
        lent.grown,
      ))
      (λ _. (h, r, omega arith))
