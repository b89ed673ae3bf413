-- ===== src/Sched/Share/Online.antt =====
-- kernel/sched/rt.c, `__enable_runtime`: a CPU comes back to the domain.
use kernel_programming.Sched.Share.Offline.{without}
use native.Mathlib.Nat.{mul-le-mul_right}
use kernel_programming.Prelude.{
  ℕ, ◌+◌, ◌*◌, ◌^◌, ◌<◌, ◌≤◌, ◌≡◌, refl, ap, ◌∙◌, true, List, [], ◌∷◌, ◌==◌, if◌then◌else◌, arith,
  count, length,
}
use kernel_programming.Sched.Rt.{RtEnv, runtime_inf}
use kernel_programming.Sched.Share.{Cpus, runtime, time, enable_runtime}
use kernel_programming.Sched.Share.Sums.{share, is_on, mask, sum_over-eq, mask-eq}
use kernel_programming.Sched.Share.Domain.{IsShared, IsDomain, share_beside}

runtime-enable_runtime :
    (env : RtEnv) (span : List ℕ) (this : ℕ) (c : Cpus) (j : ℕ)
    → runtime (enable_runtime env span true this c) j
      ≡ (if j == this then env.def_runtime else runtime c j)
unfolding enable_runtime runtime
runtime-enable_runtime env span this c j = ground arith

time-enable_runtime :
    (env : RtEnv) (span : List ℕ) (this : ℕ) (c : Cpus) (j : ℕ)
    → time (enable_runtime env span true this c) j ≡ (if j == this then 0 else time c j)
unfolding enable_runtime time
time-enable_runtime env span this c j = ground arith

count-le-length : (i : ℕ) (is : List ℕ) → count i is ≤ length is
count-le-length i [] = omega arith
count-le-length i (k ∷ is) = ground (arith, count-le-length i is)

pub default-lt :
    (env : RtEnv) (span : List ℕ) (this : ℕ)
    → IsDomain env span
    → count this span ≡ 1
    → env.def_runtime < 2 ^ 62
default-lt env span this d once =
    let one : 1 ≤ length span = omega (arith, count-le-length this span, once) in
    omega (arith, mul-le-mul_right env.def_runtime one, d.bound)

-- A CPU that was offline comes back with the default runtime and nothing used, and the enabled CPUs
-- of the domain have the default runtime each, taken together.
pub enable_runtime-IsShared :
    (env : RtEnv) (span : List ℕ) (this : ℕ) (c : Cpus)
    → IsDomain env span
    → IsShared env span c
    → count this span ≡ 1
    → runtime c this ≡ runtime_inf
    → IsShared env span (enable_runtime env span true this c)
enable_runtime-IsShared env span this c d h once inf =
    let c' = enable_runtime env span true this c in
    let own : runtime c' this ≡ env.def_runtime =
      grind (arith, runtime-enable_runtime env span this c this) in
    let small = default-lt env span this d once in
    let beside = share_beside (runtime c') this span once (omega (arith, own, small)) in
    let same = λ (h : ℕ → ℕ).
      sum_over-eq h (mask this (runtime c')) (mask this (runtime c)) span (λ j p.
        mask-eq this (runtime c') (runtime c) j
          (λ ne. grind (arith, runtime-enable_runtime env span this c j))) in
    let others = without env span this c d h once (rw inf refl) in
    let shares = same share in
    let ons = ap (λ n. n * env.def_runtime) (beside.1 ∙ ap (λ n. n + 1) (same is_on)) in
    record {
      total = omega (arith, beside.0, own, shares, ons, others);
      times = λ j. grind (arith, time-enable_runtime env span this c j, h.times j);
    }
