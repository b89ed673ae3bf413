-- ===== src/Sched/Share/Reach.antt =====
-- kernel/sched/rt.c, the states that a domain of CPUs reaches by lending runtime, by CPUs that go
-- offline and come back, and by whatever else runs on them.
use kernel_programming.Prelude.{
  ℕ, ◌+◌, ◌*◌, ◌^◌, ◌<◌, ◌≡◌, sym, ap, ◌∙◌, true, List, [], ◌∷◌, some, arith, count, subst, some_eq,
}
use kernel_programming.Sched.Rt.{RtEnv, runtime_inf}
use kernel_programming.Sched.Share.{
  Cpus, runtime, time, balance_runtime, disable_runtime, enable_runtime,
}
use kernel_programming.Sched.Share.Sums.{
  share, is_on, sum_over, sum_over-eq, share_small, is_on_small,
}
use kernel_programming.Sched.Share.Domain.{IsShared, IsDomain, balance_runtime-IsShared}
use kernel_programming.Sched.Share.Offline.{disable_runtime-IsShared}
use kernel_programming.Sched.Share.Online.{enable_runtime-IsShared, default-lt}

-- `sched_rt_runtime_exceeded` lets a CPU borrow only when its runtime is below the period; `runs` is
-- any other step, which uses time and leaves the runtimes alone.
pub data Step (env : RtEnv) (span : List ℕ) : Cpus → Cpus → Type 0 where
  borrows :
      (c : Cpus) (this : ℕ)
      → count this span ≡ 1
      → runtime c this < env.rt_period
      → Step env span c (balance_runtime env span this c)
  leaves :
      (c c' : Cpus) (this : ℕ)
      → count this span ≡ 1
      → disable_runtime env span true this c ≡ some c'
      → Step env span c c'
  returns :
      (c : Cpus) (this : ℕ)
      → count this span ≡ 1
      → runtime c this ≡ runtime_inf
      → Step env span c (enable_runtime env span true this c)
  runs :
      (c c' : Cpus)
      → ((j : ℕ) → runtime c' j ≡ runtime c j)
      → ((j : ℕ) → time c' j < 2 ^ 62)
      → Step env span c c'

pub data Reach (env : RtEnv) (span : List ℕ) (c : Cpus) : Cpus → Type 0 where
  here : Reach env span c c
  next : {c1 c2 : Cpus} → Reach env span c c1 → Step env span c1 c2 → Reach env span c c2

-- Every CPU of the domain has the default runtime.
pub record IsFresh (env : RtEnv) (span : List ℕ) (c : Cpus) : Type 0 where
  pub runtimes : (j : ℕ) → 0 < count j span → runtime c j ≡ env.def_runtime
  pub times : (j : ℕ) → time c j < 2 ^ 62

all_equal :
    (b : ℕ) (f : ℕ → ℕ) (is : List ℕ)
    → b < 2 ^ 62
    → ((j : ℕ) → 0 < count j is → f j ≡ b)
    → sum_over share f is ≡ sum_over is_on f is * b
all_equal b f [] p h = omega arith
all_equal b f (i ∷ is) p h =
    let own : f i ≡ b = h i (ground arith) in
    let rest = all_equal b f is p (λ j q. h j (ground arith)) in
    let share_i = ap share own ∙ share_small b p in
    let on_i = ap is_on own ∙ is_on_small b p in
    omega (arith, rest, share_i, ap (λ n. (n + sum_over is_on f is) * b) on_i)

Step-IsShared :
    {env : RtEnv} {span : List ℕ} {c c' : Cpus}
    → IsDomain env span
    → Step env span c c'
    → IsShared env span c
    → IsShared env span c'
Step-IsShared {env = env} {span = span} d (borrows c this once p) h =
    (balance_runtime-IsShared env span this c d h once (omega arith)).0
Step-IsShared {env = env} {span = span} d (leaves c c' this once e) h =
    let (c1, e1, shared, own) = disable_runtime-IsShared env span this c d h once in
    subst (IsShared env span) (some_eq c1 (sym e1 ∙ e)) shared
Step-IsShared {env = env} {span = span} d (returns c this once inf) h =
    enable_runtime-IsShared env span this c d h once inf
Step-IsShared {env = env} {span = span} d (runs c c' same times) h =
    let at = λ (g : ℕ → ℕ). sum_over-eq g (runtime c') (runtime c) span (λ j p. same j) in
    record {
      total = at share ∙ h.total ∙ ap (λ n. n * env.def_runtime) (sym (at is_on));
      times = times;
    }

Reach-IsShared :
    {env : RtEnv} {span : List ℕ} {c c' : Cpus}
    → IsDomain env span
    → IsShared env span c
    → Reach env span c c'
    → IsShared env span c'
Reach-IsShared d h here = h
Reach-IsShared d h (next r s) = Step-IsShared d s (Reach-IsShared d h r)

-- In a domain of distinct CPUs that all start with the default runtime, whatever CPUs borrow, go
-- offline, come back and run, in any order: a CPU that goes offline is never left wanting, so the
-- BUG_ON of __disable_runtime does not stop the kernel, and the enabled CPUs have the default
-- runtime each, taken together.
pub Reach-disable_runtime :
    (env : RtEnv) (span : List ℕ) (this : ℕ) (c c' : Cpus)
    → IsDomain env span
    → IsFresh env span c
    → Reach env span c c'
    → count this span ≡ 1
    → (c'' : Cpus) × (disable_runtime env span true this c' ≡ some c'')
      × (sum_over share (runtime c'') span ≡ sum_over is_on (runtime c'') span * env.def_runtime)
      × (runtime c'' this ≡ runtime_inf)
Reach-disable_runtime env span this c c' d f r once =
    let start : IsShared env span c = record {
      total =
          all_equal env.def_runtime (runtime c) span (default-lt env span this d once) f.runtimes;
      times = f.times;
    } in
    let (c'', e, shared, own) =
      disable_runtime-IsShared env span this c' d (Reach-IsShared d start r) once in
    (c'', e, shared.total, own)
