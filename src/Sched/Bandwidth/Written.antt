-- ===== src/Sched/Bandwidth/Written.antt =====
-- kernel/sched/rt.c, a write to the limits of real-time tasks: it is refused and undone, or every CPU
-- has the new limits.
use kernel_programming.Sched.Share.Reach.{IsFresh}
use kernel_programming.Sched.Share.Domain.{IsDomain}
use kernel_programming.Sched.Rt.{RtEnv}
use native.Mathlib.Nat.{mul-le-mul}
use kernel_programming.Prelude.{
  ℕ, ◌<◌, ◌≡◌, inl, inr, refl, ◌∙◌, true, false, List, [], ◌∷◌, ◌==◌, arith, count, Bool-cases, ◌^◌,
  ◌*◌, ◌≤◌, subst, sym, length, ap,
}
use kernel_programming.Prelude.Int.{ℤ, pos}
use kernel_programming.Sched.Share.{Cpus, runtime, time, set_runtime}
use kernel_programming.Sched.Share.Sums.{runtime-set_runtime, time-set_runtime, IsNoDup}
use kernel_programming.Sched.Bandwidth.{
  Limits, Proc, is_ok, sched_rt_global_validate, set_runtimes, sched_rt_handler, sched_rt_do_global,
  sched_rt_global_constraints, written, global_rt_runtime, global_rt_period,
}

runtime-set_runtimes :
    (r : ℕ) (is : List ℕ) (c : Cpus) (j : ℕ)
    → (0 < count j is → runtime (set_runtimes r is c) j ≡ r)
      × (runtime c j ≡ r → runtime (set_runtimes r is c) j ≡ r)
unfolding set_runtimes
runtime-set_runtimes r [] c j = (λ p. absurd (omega arith), λ e. e)
runtime-set_runtimes r (i ∷ is) c j =
    let (fresh, stays) = runtime-set_runtimes r is (set_runtime c i r) j in
    let at = runtime-set_runtime c i r j in
    (
      λ p. elim (Bool-cases (j == i)) [
        | inl q ↦ stays (grind (arith, at))
        | inr q ↦ fresh (ground arith)
      ],
      λ e. stays (grind (arith, at)),
    )

time-set_runtimes :
    (r : ℕ) (is : List ℕ) (c : Cpus) (j : ℕ) → time (set_runtimes r is c) j ≡ time c j
unfolding set_runtimes
time-set_runtimes r [] c j = refl
time-set_runtimes r (i ∷ is) c j =
    time-set_runtimes r is (set_runtime c i r) j ∙ time-set_runtime c i r j

-- A write whose limits are refused leaves the limits, the bandwidth and every CPU as they were.
pub sched_rt_handler-refused :
    (possible : List ℕ) (proc : Proc) (dl_validate : Limits → ℤ) (old : Limits)
    → is_ok proc.ret ≡ true
    → is_ok (sched_rt_handler possible proc dl_validate true old).0 ≡ false
    → (sched_rt_handler possible proc dl_validate true old).1 ≡ old
unfolding sched_rt_handler
sched_rt_handler-refused possible proc dl_validate old r h = ground arith

-- Limits that pass the validation.
valid_limits :
    (l : Limits) (n : ℕ)
    → l.sysctl_sched_rt_runtime ≡ pos n
    → n < 2 ^ 31
    → is_ok (sched_rt_global_validate l) ≡ true
    → (0 < l.sysctl_sched_rt_period) × (n ≤ l.sysctl_sched_rt_period)
unfolding sched_rt_global_validate
valid_limits l n e p h = ground arith

accepted :
    (possible : List ℕ) (proc : Proc) (dl_validate : Limits → ℤ) (old : Limits)
    → is_ok proc.ret ≡ true
    → is_ok (sched_rt_handler possible proc dl_validate true old).0 ≡ true
    → ((sched_rt_handler possible proc dl_validate true old).1
        ≡ sched_rt_do_global (sched_rt_global_constraints possible (written proc old)))
      × (is_ok (sched_rt_global_validate (written proc old)) ≡ true)
unfolding sched_rt_handler
accepted possible proc dl_validate old r h = ground arith

limit_lem :
    (l : Limits) (n : ℕ)
    → l.sysctl_sched_rt_runtime ≡ pos n
    → n < 2 ^ 31
    → global_rt_runtime l ≡ n * 1000
limit_lem l n e p = rw e (ground arith)

-- What an accepted write leaves.
record IsWritten (possible : List ℕ) (w l : Limits) : Type 0 where
  cpus : l.cpus ≡ set_runtimes (global_rt_runtime w) possible w.cpus
  limit : l.rt_runtime ≡ global_rt_runtime w
  period : l.rt_period ≡ global_rt_period w

IsWritten-do_global :
    (possible : List ℕ) (w : Limits)
    → IsWritten possible w (sched_rt_do_global (sched_rt_global_constraints possible w))
unfolding sched_rt_do_global sched_rt_global_constraints
IsWritten-do_global possible w = record { cpus = refl; limit = refl; period = refl }

bound_lem : (k b : ℕ) → k < 2 ^ 20 → b < 2 ^ 41 → k * b < 2 ^ 62
bound_lem k b p q =
    let le : k * b ≤ 2 ^ 20 * 2 ^ 41 =
      mul-le-mul {n₂ = 2 ^ 20} {m₂ = 2 ^ 41} (omega arith) (omega arith) in
    omega (arith, le)

-- A write that is accepted, of a limit of n microseconds in a period, leaves a domain of distinct
-- possible CPUs in which every CPU has the new runtime, which is n microseconds and no more than the
-- new period: the state from which the CPUs of a domain start to lend each other runtime.
pub sched_rt_handler-IsFresh :
    (possible : List ℕ) (proc : Proc) (dl_validate : Limits → ℤ) (old : Limits) (n : ℕ)
    (env : RtEnv) (span : List ℕ)
    → is_ok proc.ret ≡ true
    → is_ok (sched_rt_handler possible proc dl_validate true old).0 ≡ true
    → proc.runtime ≡ pos n
    → n < 2 ^ 31
    → proc.period < 2 ^ 32
    → ((j : ℕ) → time old.cpus j < 2 ^ 62)
    → env.rt_period ≡ (sched_rt_handler possible proc dl_validate true old).1.rt_period
    → env.def_runtime ≡ (sched_rt_handler possible proc dl_validate true old).1.rt_runtime
    → IsNoDup span
    → length span < 2 ^ 20
    → ((j : ℕ) → 0 < count j span → 0 < count j possible)
    → IsDomain env span
      × IsFresh env span (sched_rt_handler possible proc dl_validate true old).1.cpus
      × (env.def_runtime ≡ n * 1000)
      × (env.def_runtime ≤ env.rt_period)
sched_rt_handler-IsFresh possible proc dl_validate old n env span r h e small period times
      same_period same_runtime nodup few inside =
    let (eq, valid) = accepted possible proc dl_validate old r h in
    let w = written proc old in
    let (pos_period, le) = valid_limits w n e small valid in
    let l = subst (IsWritten possible w) (sym eq) (IsWritten-do_global possible w) in
    let limit : env.def_runtime ≡ n * 1000 = same_runtime ∙ l.limit ∙ limit_lem w n e small in
    let of_period : env.rt_period ≡ proc.period * 1000 = same_period ∙ l.period ∙ omega arith in
    (
      record {
        nodup = nodup;
        period = omega (arith, of_period);
        bound = bound_lem (length span) env.def_runtime few (omega (arith, limit));
      },
      record {
        runtimes = λ j p.
            ap (λ c. runtime c j) l.cpus
            ∙ (runtime-set_runtimes (global_rt_runtime w) possible old.cpus j).0 (inside j p)
            ∙ sym (same_runtime ∙ l.limit);
        times =
            λ j. rw (l.cpus, time-set_runtimes (global_rt_runtime w) possible old.cpus j) (times j);
      },
      limit,
      omega (arith, limit, of_period, le),
    )
