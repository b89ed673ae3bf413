-- ===== src/Sched/Share/Reclaimed.antt =====
-- kernel/sched/rt.c, the greedy reclaim of `__disable_runtime`: what a part of its loop leaves.
use kernel_programming.Prelude.{
  ℕ, ◌+◌, ◌^◌, ◌<◌, ◌≡◌, ◌≢◌, refl, ap, ◌∙◌, List, [], ◌∷◌, arith, count,
}
use kernel_programming.Sched.Share.{Cpus, runtime, time, set_runtime}
use kernel_programming.Sched.Share.Sums.{
  share, is_on, sum_over, mask, sum_over-eq, mask-eq, count-apart, share_small, is_on_small,
  runtime-set_runtime, time-set_runtime,
}

-- What a loop over `is` leaves when it takes `lost` and gives `gained`.
pub record IsReclaimed (this : ℕ) (is : List ℕ) (c c' : Cpus) (lost gained : ℕ) : Type 0 where
  pub total :
      sum_over share (mask this (runtime c')) is + lost
      ≡ sum_over share (mask this (runtime c)) is + gained
  pub enabled :
      sum_over is_on (mask this (runtime c')) is ≡ sum_over is_on (mask this (runtime c)) is
  pub own : runtime c' this ≡ runtime c this
  pub elsewhere : (j : ℕ) → count j is ≡ 0 → runtime c' j ≡ runtime c j
  pub times : (j : ℕ) → time c' j ≡ time c j

module _ (this : ℕ) where
  pub IsReclaimed-refl : (is : List ℕ) (c : Cpus) → IsReclaimed this is c c 0 0
  IsReclaimed-refl is c = record {
    total = refl;
    enabled = refl;
    own = refl;
    elsewhere = λ j e. refl;
    times = λ j. refl;
  }

  pub IsReclaimed-set :
      (i r lost gained : ℕ) (c : Cpus)
      → i ≢ this
      → runtime c i < 2 ^ 62
      → r < 2 ^ 62
      → r + lost ≡ runtime c i + gained
      → IsReclaimed this (i ∷ []) c (set_runtime c i r) lost gained
  IsReclaimed-set i r lost gained c ne small small' e =
      let c1 = set_runtime c i r in
      let at_i : runtime c1 i ≡ r = grind (arith, runtime-set_runtime c i r i) in
      let at : mask this (runtime c1) i ≡ r = grind (arith, at_i) in
      let before : mask this (runtime c) i ≡ runtime c i = grind arith in
      let share_after : share (mask this (runtime c1) i) ≡ r = ap share at ∙ share_small r small' in
      let share_before : share (mask this (runtime c) i) ≡ runtime c i =
        ap share before ∙ share_small (runtime c i) small in
      let on_after : is_on (mask this (runtime c1) i) ≡ 1 = ap is_on at ∙ is_on_small r small' in
      let on_before : is_on (mask this (runtime c) i) ≡ 1 =
        ap is_on before ∙ is_on_small (runtime c i) small in
      record {
        total = omega (arith, share_after, share_before, e);
        enabled = omega (arith, on_after, on_before);
        own = grind (arith, runtime-set_runtime c i r this);
        elsewhere = λ j q. grind (arith, runtime-set_runtime c i r j, q);
        times = λ j. time-set_runtime c i r j;
      }

  pub kept :
      (h : ℕ → ℕ) (i : ℕ) (is : List ℕ) (c0 c1 : Cpus) (l g : ℕ)
      → count i is ≡ 0
      → IsReclaimed this (i ∷ []) c0 c1 l g
      → sum_over h (mask this (runtime c1)) is ≡ sum_over h (mask this (runtime c0)) is
  kept h i is c0 c1 l g fresh s =
      sum_over-eq h (mask this (runtime c1)) (mask this (runtime c0)) is (λ j p.
        mask-eq this (runtime c1) (runtime c0) j (λ _. s.elsewhere j (count-apart i j is fresh p)))

  pub IsReclaimed-cons :
      (i : ℕ) (is : List ℕ) (c0 c1 c2 : Cpus) (l l' g g' lost gained : ℕ)
      → count i is ≡ 0
      → l + l' ≡ lost
      → g + g' ≡ gained
      → IsReclaimed this (i ∷ []) c0 c1 l g
      → IsReclaimed this is c1 c2 l' g'
      → IsReclaimed this (i ∷ is) c0 c2 lost gained
  IsReclaimed-cons i is c0 c1 c2 l l' g g' lost gained fresh el eg h k =
      let at : mask this (runtime c2) i ≡ mask this (runtime c1) i =
        mask-eq this (runtime c2) (runtime c1) i (λ _. k.elsewhere i fresh) in
      let shares = kept share i is c0 c1 l g fresh h in
      let ons = kept is_on i is c0 c1 l g fresh h in
      let share_at = ap share at in
      let on_at = ap is_on at in
      record {
        total = omega (arith, shares, share_at, h.total, k.total, el, eg);
        enabled = omega (arith, ons, on_at, h.enabled, k.enabled);
        own = k.own ∙ h.own;
        elsewhere = λ j e. k.elsewhere j (ground arith) ∙ h.elsewhere j (ground arith);
        times = λ j. k.times j ∙ h.times j;
      }
