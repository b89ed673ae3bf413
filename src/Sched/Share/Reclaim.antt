-- ===== src/Sched/Share/Reclaim.antt =====
-- kernel/sched/rt.c, the greedy reclaim of `__disable_runtime`: nothing is left wanting.
use kernel_programming.Sched.Share.Reclaimed.{
  IsReclaimed, IsReclaimed-refl, IsReclaimed-set, IsReclaimed-cons, kept,
}
use kernel_programming.Prelude.{
  ℕ, ◌+◌, ◌-◌, ◌^◌, ◌<◌, ◌≤◌, ◌≡◌, ◌≢◌, refl, true, false, ◌&&◌, ◌||◌, List, [], ◌∷◌, ◌==◌,
  if◌then◌else◌, arith, if_cases, min, subst, sym, Bool-cases, inl, inr,
}
use kernel_programming.Sched.Rt.{RtEnv, runtime_inf}
use kernel_programming.Sched.Share.{
  Cpus, runtime, set_runtime, sub_u64, is_positive, min_s64, reclaim_from, reclaim_loop,
}
use kernel_programming.Sched.Share.Sums.{
  share, is_on, sum_over, mask, IsNoDup-head, IsNoDup-tail, IsNoDup,
}

-- The words of the loop are small, or negative.
positive_small : (w : ℕ) → 0 < w → w < 2 ^ 62 → is_positive w ≡ true
positive_small w p h = ground arith

not_positive : (g : ℕ) → 0 < g → g < 2 ^ 62 → is_positive (2 ^ 64 - g) ≡ false
not_positive g p h = ground arith

min_s64_small : (a b : ℕ) → a < 2 ^ 62 → b < 2 ^ 62 → min_s64 a b ≡ min a b
min_s64_small a b h k = ground arith

sub_small : (a b : ℕ) → a < 2 ^ 62 → b ≤ a → sub_u64 a b ≡ a - b
sub_small a b h k = omega arith

sub_negative : (a g : ℕ) → a < 2 ^ 62 → g < 2 ^ 62 → 0 < g → sub_u64 a (2 ^ 64 - g) ≡ a + g
sub_negative a g h k p = omega arith

module _ (env : RtEnv) (span : List ℕ) (this : ℕ) where
  -- A CPU that is passed over brings nothing.
  passed_over :
      (i : ℕ) (f : ℕ → ℕ)
      → (i == this || f i == runtime_inf) ≡ true
      → (share (mask this f i) ≡ 0) × (is_on (mask this f i) ≡ 0)
  passed_over i f q = ground arith

  asked :
      (i : ℕ) (f : ℕ → ℕ)
      → (i == this || f i == runtime_inf) ≡ false
      → (i ≢ this) × (share (mask this f i) ≡ f i) × (is_on (mask this f i) ≡ 1)
  asked i f q = ground arith

  -- Nothing is left wanting.
  abbrev pub IsDone : List ℕ → Cpus → ℕ → ℕ → ℕ × Cpus → Type 0
  IsDone is c lost gained r = (r.0 ≡ 0) × IsReclaimed this is c r.1 lost gained

  reclaim_from-skips :
      (i want : ℕ) (c : Cpus)
      → (i == this || runtime c i == runtime_inf) ≡ true
      → reclaim_from env span this i want c ≡ (want, c)
  unfolding reclaim_from
  reclaim_from-skips i want c q = rw q refl

  reclaim_skips :
      (i : ℕ) (is : List ℕ) (want : ℕ) (c : Cpus)
      → (i == this || runtime c i == runtime_inf) ≡ true
      → reclaim_loop env span this (i ∷ is) want c ≡ reclaim_loop env span this is want c
  unfolding reclaim_loop reclaim_from
  reclaim_skips i is want c q =
      rw (reclaim_from-skips i want c q, q)
        (if_cases (λ r. r ≡ reclaim_loop env span this is want c) (want == 0 && false) _ _
          (λ e. absurd (ground arith)) (λ _. refl))

  reclaim_asks :
      (i : ℕ) (is : List ℕ) (want : ℕ) (c : Cpus) (r : ℕ × Cpus)
      → (i == this || runtime c i == runtime_inf) ≡ false
      → reclaim_from env span this i want c ≡ r
      → reclaim_loop env span this (i ∷ is) want c
        ≡ (if r.0 == 0 then r else reclaim_loop env span this is r.0 r.1)
  unfolding reclaim_loop
  reclaim_asks i is want c r q e = rw (e, q) (ground arith)

  reclaim_from-takes :
      (i want : ℕ) (c : Cpus)
      → (i == this || runtime c i == runtime_inf) ≡ false
      → 0 < want
      → want < 2 ^ 62
      → runtime c i < 2 ^ 62
      → reclaim_from env span this i want c
        ≡ (want - min (runtime c i) want, set_runtime c i (runtime c i - min (runtime c i) want))
  unfolding reclaim_from
  reclaim_from-takes i want c q p small fits =
      rw
        (
          q,
          positive_small want p small,
          min_s64_small (runtime c i) want fits small,
          sub_small want (min (runtime c i) want) small (omega arith),
          sub_small (runtime c i) (min (runtime c i) want) fits (omega arith),
        )
        refl

  reclaim_from-gives :
      (i g : ℕ) (c : Cpus)
      → (i == this || runtime c i == runtime_inf) ≡ false
      → 0 < g
      → g < 2 ^ 62
      → runtime c i < 2 ^ 62
      → reclaim_from env span this i (2 ^ 64 - g) c ≡ (0, set_runtime c i (runtime c i + g))
  unfolding reclaim_from
  reclaim_from-gives i g c q p small fits =
      rw (q, not_positive g p small, sub_negative (runtime c i) g fits small p) refl

  -- What is wanted is taken, where the others have it.
  pub reclaim_takes :
      (is : List ℕ) (want : ℕ) (c : Cpus)
      → IsNoDup is
      → 0 < want
      → want ≤ sum_over share (mask this (runtime c)) is
      → sum_over share (mask this (runtime c)) is < 2 ^ 62
      → IsDone is c want 0 (reclaim_loop env span this is want c)
  reclaim_takes [] want c nodup p le small = absurd (omega arith)
  reclaim_takes (i ∷ is) want c nodup p le small =
      elim (Bool-cases (i == this || runtime c i == runtime_inf)) [
        | inl q ↦
            let (no_share, no_on) = passed_over i (runtime c) q in
            let (ends, rest) =
              reclaim_takes is want c (IsNoDup-tail i is nodup) p (omega (arith, le, no_share))
                (omega (arith, small)) in
            subst (IsDone (i ∷ is) c want 0) (sym (reclaim_skips i is want c q)) (
              ends,
              IsReclaimed-cons this i is c c _ 0 want 0 0 want 0 (IsNoDup-head i is nodup)
                  (omega arith) refl (IsReclaimed-refl this (i ∷ []) c) rest,
            )
        | inr q ↦
            let (ne, has_share, has_on) = asked i (runtime c) q in
            let fits : runtime c i < 2 ^ 62 = omega (arith, has_share, small) in
            let taken = min (runtime c i) want in
            let c1 = set_runtime c i (runtime c i - taken) in
            let step : IsReclaimed this (i ∷ []) c c1 taken 0 =
              IsReclaimed-set this i (runtime c i - taken) taken 0 c ne fits (omega (arith, fits))
                (omega arith) in
            let after = kept this share i is c c1 taken 0 (IsNoDup-head i is nodup) step in
            let asks =
              reclaim_asks i is want c (want - taken, c1) q
                (reclaim_from-takes i want c q p (omega (arith, le, small)) fits) in
            subst (IsDone (i ∷ is) c want 0) (sym asks) (
              if_cases (IsDone (i ∷ is) c want 0) (want - taken == 0) _ _
                (λ e. (
                  ground arith,
                  IsReclaimed-cons this i is c c1 c1 taken 0 0 0 want 0 (IsNoDup-head i is nodup)
                      (ground arith) refl step (IsReclaimed-refl this is c1),
                ))
                (λ e.
                  let more : 0 < want - taken = ground arith in
                  let (ends, rest) =
                    reclaim_takes is (want - taken) c1 (IsNoDup-tail i is nodup) more
                      (omega (arith, le, has_share, after)) (omega (arith, small, after)) in
                  (
                    ends,
                    IsReclaimed-cons this i is c c1 _ taken (want - taken) 0 0 want 0
                        (IsNoDup-head i is nodup) (omega arith) refl step rest,
                  )))
      ]

  -- What is too much goes to the first CPU that lends.
  pub reclaim_gives :
      (is : List ℕ) (g : ℕ) (c : Cpus)
      → IsNoDup is
      → 0 < g
      → 0 < sum_over is_on (mask this (runtime c)) is
      → sum_over share (mask this (runtime c)) is + g < 2 ^ 62
      → IsDone is c 0 g (reclaim_loop env span this is (2 ^ 64 - g) c)
  reclaim_gives [] g c nodup p some_on small = absurd (omega arith)
  reclaim_gives (i ∷ is) g c nodup p some_on small =
      elim (Bool-cases (i == this || runtime c i == runtime_inf)) [
        | inl q ↦
            let (no_share, no_on) = passed_over i (runtime c) q in
            let (ends, rest) =
              reclaim_gives is g c (IsNoDup-tail i is nodup) p (omega (arith, some_on, no_on))
                (omega (arith, small)) in
            subst (IsDone (i ∷ is) c 0 g) (sym (reclaim_skips i is (2 ^ 64 - g) c q)) (
              ends,
              IsReclaimed-cons this i is c c _ 0 0 0 g 0 g (IsNoDup-head i is nodup) refl
                  (omega arith) (IsReclaimed-refl this (i ∷ []) c) rest,
            )
        | inr q ↦
            let (ne, has_share, has_on) = asked i (runtime c) q in
            let fits : runtime c i + g < 2 ^ 62 = omega (arith, has_share, small) in
            let c1 = set_runtime c i (runtime c i + g) in
            let step : IsReclaimed this (i ∷ []) c c1 0 g =
              IsReclaimed-set this i (runtime c i + g) 0 g c ne (omega (arith, fits)) fits
                (omega arith) in
            let asks =
              reclaim_asks i is (2 ^ 64 - g) c (0, c1) q
                (reclaim_from-gives i g c q p (omega (arith, fits)) (omega (arith, fits))) in
            subst (IsDone (i ∷ is) c 0 g) (sym asks) (
              refl,
              IsReclaimed-cons this i is c c1 c1 0 0 g 0 0 g (IsNoDup-head i is nodup) refl
                  (omega arith) step (IsReclaimed-refl this is c1),
            )
      ]
