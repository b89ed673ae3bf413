-- ===== src/Sched/Share/Balance.antt =====
-- kernel/sched/rt.c, `do_balance_runtime`: what is borrowed is lost by a neighbour.
use kernel_programming.Prelude.{
  ℕ, ◌+◌, ◌^◌, ◌<◌, ◌≤◌, ◌≡◌, ◌≢◌, true, List, arith, count, length, refl, ◌∙◌, ◌-◌, ◌∷◌, [], ap,
  if_cases, ◌||◌, ◌==◌, Bool,
}
use native.Mathlib.Nat.{div-le_self}
use kernel_programming.Sched.Rt.{RtEnv, runtime_inf}
use kernel_programming.Sched.Share.{
  Cpus, runtime, time, sub_u64, is_positive, spare_part, set_runtime, add_u64, borrow_from,
  borrow_loop,
}
use kernel_programming.Sched.Share.Sums.{
  share, is_on, sum_over, mask, runtime-set_runtime, time-set_runtime, mask-eq, share_small,
  is_on_small, sum_over-eq, count-apart, IsNoDup,
}

-- The change of a runtime `x` that has been used for the time `t`, and of the borrower's `r`.
pub spare_part-le :
    (env : RtEnv) (span : List ℕ) (r x t : ℕ)
    → env.rt_period < 2 ^ 62
    → r ≤ env.rt_period
    → x < 2 ^ 62
    → t < 2 ^ 62
    → is_positive (sub_u64 x t) ≡ true
    → (spare_part env span r (sub_u64 x t) ≤ x)
      × (r + spare_part env span r (sub_u64 x t) ≤ env.rt_period)
spare_part-le env span r x t p q h k pos = ground (arith, div-le_self (sub_u64 x t) (length span))

-- What a loop over `is` leaves, against what it found.
pub record IsLent (env : RtEnv) (this : ℕ) (is : List ℕ) (cpus cpus' : Cpus) : Type 0 where
  pub total :
      sum_over share (mask this (runtime cpus')) is + runtime cpus' this
      ≡ sum_over share (mask this (runtime cpus)) is + runtime cpus this
  pub enabled :
      sum_over is_on (mask this (runtime cpus')) is ≡ sum_over is_on (mask this (runtime cpus)) is
  pub within : runtime cpus' this ≤ env.rt_period
  pub grown : runtime cpus this ≤ runtime cpus' this
  pub elsewhere : (j : ℕ) → count j is ≡ 0 → j ≢ this → runtime cpus' j ≡ runtime cpus j
  pub times : (j : ℕ) → time cpus' j ≡ time cpus j

module _ (env : RtEnv) (span : List ℕ) (this : ℕ) (period : env.rt_period < 2 ^ 62) where
  IsLent-refl :
      (is : List ℕ) (cpus : Cpus) → runtime cpus this ≤ env.rt_period → IsLent env this is cpus cpus
  IsLent-refl is cpus h = record {
    total = refl;
    enabled = refl;
    within = h;
    grown = omega arith;
    elsewhere = λ j e ne. refl;
    times = λ j. refl;
  }

  -- Part of what a neighbour has goes to the borrower.
  IsLent-set :
      (i part : ℕ) (cpus : Cpus)
      → i ≢ this
      → runtime cpus i < 2 ^ 62
      → part ≤ runtime cpus i
      → runtime cpus this + part ≤ env.rt_period
      → IsLent env this (i ∷ []) cpus (
          set_runtime
            (set_runtime cpus i (sub_u64 (runtime cpus i) part))
            this
            (add_u64 (runtime cpus this) part))
  IsLent-set i part cpus ne small h k =
      let c1 = set_runtime cpus i (sub_u64 (runtime cpus i) part) in
      let c2 = set_runtime c1 this (add_u64 (runtime cpus this) part) in
      let less : sub_u64 (runtime cpus i) part ≡ runtime cpus i - part = omega arith in
      let more : add_u64 (runtime cpus this) part ≡ runtime cpus this + part = omega arith in
      let at_this : runtime c2 this ≡ runtime cpus this + part =
        grind (arith, runtime-set_runtime c1 this (add_u64 (runtime cpus this) part) this, more) in
      let at_i : runtime c2 i ≡ runtime cpus i - part = grind (
        arith,
        runtime-set_runtime c1 this (add_u64 (runtime cpus this) part) i,
        runtime-set_runtime cpus i (sub_u64 (runtime cpus i) part) i,
        less,
      ) in
      let at : mask this (runtime c2) i ≡ runtime cpus i - part = grind (arith, at_i) in
      let before : mask this (runtime cpus) i ≡ runtime cpus i = grind (arith) in
      let share_after : share (mask this (runtime c2) i) ≡ runtime cpus i - part =
        ap share at ∙ share_small (runtime cpus i - part) (omega arith) in
      let share_before : share (mask this (runtime cpus) i) ≡ runtime cpus i =
        ap share before ∙ share_small (runtime cpus i) small in
      let on_after : is_on (mask this (runtime c2) i) ≡ 1 =
        ap is_on at ∙ is_on_small (runtime cpus i - part) (omega arith) in
      let on_before : is_on (mask this (runtime cpus) i) ≡ 1 =
        ap is_on before ∙ is_on_small (runtime cpus i) small in
      record {
        total = omega (arith, share_before, share_after, at_this, h);
        enabled = omega (arith, on_before, on_after);
        within = omega (arith, at_this);
        grown = omega (arith, at_this);
        elsewhere = λ j e q. grind (
          arith,
          runtime-set_runtime c1 this (add_u64 (runtime cpus this) part) j,
          runtime-set_runtime cpus i (sub_u64 (runtime cpus i) part) j,
          e,
        );
        times = λ j.
            time-set_runtime c1 this (add_u64 (runtime cpus this) part) j
            ∙ time-set_runtime cpus i (sub_u64 (runtime cpus i) part) j;
      }

  IsLent-cons :
      (i : ℕ) (is : List ℕ) (c0 c1 c2 : Cpus)
      → count i is ≡ 0
      → IsLent env this (i ∷ []) c0 c1
      → IsLent env this is c1 c2
      → IsLent env this (i ∷ is) c0 c2
  IsLent-cons i is c0 c1 c2 fresh h k =
      let kept : (j : ℕ) → 0 < count j is → mask this (runtime c1) j ≡ mask this (runtime c0) j =
        λ j p.
          mask-eq this (runtime c1) (runtime c0) j (h.elsewhere j (count-apart i j is fresh p)) in
      let at : mask this (runtime c2) i ≡ mask this (runtime c1) i =
        mask-eq this (runtime c2) (runtime c1) i (k.elsewhere i fresh) in
      let shares = sum_over-eq share (mask this (runtime c1)) (mask this (runtime c0)) is kept in
      let ons = sum_over-eq is_on (mask this (runtime c1)) (mask this (runtime c0)) is kept in
      let share_at = ap share at in
      let on_at = ap is_on at in
      record {
        total = omega (arith, shares, share_at, h.total, k.total);
        enabled = omega (arith, ons, on_at, h.enabled, k.enabled);
        within = k.within;
        grown = omega (arith, h.grown, k.grown);
        elsewhere = λ j e ne. k.elsewhere j (ground arith) ne ∙ h.elsewhere j (ground arith) ne;
        times = λ j. k.times j ∙ h.times j;
      }

  sum_kept :
      (h : ℕ → ℕ) (i : ℕ) (is : List ℕ) (c0 c1 : Cpus)
      → count i is ≡ 0
      → IsLent env this (i ∷ []) c0 c1
      → sum_over h (mask this (runtime c1)) is ≡ sum_over h (mask this (runtime c0)) is
  sum_kept h i is c0 c1 fresh l =
      sum_over-eq h (mask this (runtime c1)) (mask this (runtime c0)) is (λ j p.
        mask-eq this (runtime c1) (runtime c0) j (l.elsewhere j (count-apart i j is fresh p)))

  borrow_from-IsLent :
      (i : ℕ) (cpus : Cpus)
      → runtime cpus this ≤ env.rt_period
      → share (mask this (runtime cpus) i) < 2 ^ 62
      → time cpus i < 2 ^ 62
      → IsLent env this (i ∷ []) cpus (borrow_from env span this i cpus).1
  unfolding borrow_from
  borrow_from-IsLent i cpus h small used =
      if_cases (λ (r : Bool × Cpus). IsLent env this (i ∷ []) cpus r.1)
        (i == this || runtime cpus i == runtime_inf) _ _ (λ _. IsLent-refl (i ∷ []) cpus h)
        (λ q.
          if_cases (λ (r : Bool × Cpus). IsLent env this (i ∷ []) cpus r.1)
            (is_positive (sub_u64 (runtime cpus i) (time cpus i))) _ _
            (λ p.
              let ne : i ≢ this = λ e. ground arith in
              let fits : runtime cpus i < 2 ^ 62 = ground arith in
              let (le, within) =
                spare_part-le env span (runtime cpus this) (runtime cpus i) (time cpus i) period h
                  fits used p in
              IsLent-set i
                (spare_part env span (runtime cpus this) (sub_u64 (runtime cpus i) (time cpus i)))
                cpus ne fits le within)
            (λ _. IsLent-refl (i ∷ []) cpus h))

  pub borrow_loop-IsLent :
      (is : List ℕ) (cpus : Cpus)
      → IsNoDup is
      → runtime cpus this ≤ env.rt_period
      → sum_over share (mask this (runtime cpus)) is + runtime cpus this < 2 ^ 62
      → ((j : ℕ) → time cpus j < 2 ^ 62)
      → IsLent env this is cpus (borrow_loop env span this is cpus)
  unfolding borrow_loop
  borrow_loop-IsLent [] cpus nodup h small used = IsLent-refl [] cpus h
  borrow_loop-IsLent (i ∷ is) cpus nodup h small used =
      let c1 = (borrow_from env span this i cpus).1 in
      let fresh : count i is ≡ 0 = ground (arith, nodup i) in
      let step = borrow_from-IsLent i cpus h (omega (arith, small)) (used i) in
      let kept = sum_kept share i is cpus c1 fresh step in
      let rest =
        borrow_loop-IsLent is c1 (λ j. ground (arith, nodup j)) step.within
          (omega (arith, kept, step.total)) (λ j. rw (step.times j) (used j)) in
      if_cases (IsLent env this (i ∷ is) cpus) ((borrow_from env span this i cpus).0) _ _
        (λ _. IsLent-cons i is cpus c1 c1 fresh step (IsLent-refl is c1 step.within))
        (λ _. IsLent-cons i is cpus c1 _ fresh step rest)
