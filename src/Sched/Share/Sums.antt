-- ===== src/Sched/Share/Sums.antt =====
-- kernel/sched/rt.c, the runtime that the enabled CPUs of a domain have together. A CPU whose runtime
-- is RUNTIME_INF lends nothing and is not counted.
use kernel_programming.Prelude.{
  ℕ, ◌+◌, ◌<◌, ◌≤◌, ◌≡◌, refl, sym, ap, ◌∙◌, List, [], ◌∷◌, ◌==◌, if◌then◌else◌, arith, count,
  if_cases, Bool-cases, inl, inr, ◌≢◌, ◌^◌, false,
}
use kernel_programming.Sched.Rt.{runtime_inf}
use kernel_programming.Sched.Share.{Cpus, runtime, time, set_runtime}

-- What a CPU brings to the total, and whether it counts.
abbrev pub share : ℕ → ℕ
share r = if r == runtime_inf then 0 else r

abbrev pub is_on : ℕ → ℕ
is_on r = if r == runtime_inf then 0 else 1

abbrev pub sum_over : (ℕ → ℕ) → (ℕ → ℕ) → List ℕ → ℕ
sum_over h f [] = 0
sum_over h f (i ∷ is) = h (f i) + sum_over h f is

-- The CPUs but for one.
abbrev pub mask : ℕ → (ℕ → ℕ) → ℕ → ℕ
mask this f j = if j == this then runtime_inf else f j

abbrev pub IsNoDup : List ℕ → Type 0
IsNoDup is = (j : ℕ) → count j is ≤ 1

pub sum_over-eq :
    (h f g : ℕ → ℕ) (is : List ℕ)
    → ((j : ℕ) → 0 < count j is → f j ≡ g j)
    → sum_over h f is ≡ sum_over h g is
sum_over-eq h f g [] e = refl
sum_over-eq h f g (i ∷ is) e =
    let here : f i ≡ g i = e i (ground arith) in
    let rest = sum_over-eq h f g is (λ j p. e j (ground arith)) in
    ap (λ x. h x + sum_over h f is) here ∙ ap (λ x. h (g i) + x) rest

pub sum_over-mask_none :
    (h f : ℕ → ℕ) (this : ℕ) (is : List ℕ)
    → count this is ≡ 0
    → sum_over h (mask this f) is ≡ sum_over h f is
sum_over-mask_none h f this is e = sum_over-eq h (mask this f) f is (λ j p.
    if_cases (λ x. x ≡ f j) (j == this) runtime_inf (f j) (λ q. absurd (ground arith)) (λ _. refl))

-- A CPU of the domain beside the others.
pub sum_over-mask :
    (h f : ℕ → ℕ) (this : ℕ) (is : List ℕ)
    → h runtime_inf ≡ 0
    → count this is ≡ 1
    → sum_over h f is ≡ sum_over h (mask this f) is + h (f this)
sum_over-mask h f this [] z e = absurd (omega arith)
sum_over-mask h f this (i ∷ is) z e = elim (Bool-cases (i == this)) [
  | inl q ↦
      let same : i ≡ this = ground arith in
      let gone = sum_over-mask_none h f this is (ground arith) in
      let value : h (mask this f i) ≡ 0 = ap h (rw q refl) ∙ z in
      let here : h (f i) ≡ h (f this) = ap (λ j. h (f j)) same in omega (arith, gone, value, here)
  | inr q ↦
      let rest = sum_over-mask h f this is z (ground arith) in
      let value : h (mask this f i) ≡ h (f i) = ap h (rw q refl) in omega (arith, rest, value)
]

pub runtime-set_runtime :
    (cpus : Cpus) (i r j : ℕ)
    → runtime (set_runtime cpus i r) j ≡ (if j == i then r else runtime cpus j)
unfolding runtime set_runtime
runtime-set_runtime cpus i r j = ground arith

pub time-set_runtime : (cpus : Cpus) (i r j : ℕ) → time (set_runtime cpus i r) j ≡ time cpus j
unfolding time set_runtime
time-set_runtime cpus i r j = ground arith

pub share-le :
    (f : ℕ → ℕ) (i : ℕ) (is : List ℕ) → 0 < count i is → share (f i) ≤ sum_over share f is
share-le f i [] p = absurd (omega arith)
share-le f i (k ∷ is) p = elim (Bool-cases (k == i)) [
  | inl q ↦
      let same : k ≡ i = ground arith in
      let here : share (f i) ≡ share (f k) = ap (λ j. share (f j)) (sym same) in omega (arith, here)
  | inr q ↦ let rest = share-le f i is (ground arith) in omega (arith, rest)
]

pub mask-eq :
    (this : ℕ) (f g : ℕ → ℕ) (j : ℕ) → (j ≢ this → f j ≡ g j) → mask this f j ≡ mask this g j
mask-eq this f g j e = elim (Bool-cases (j == this)) [
  | inl q ↦ rw q refl
  | inr q ↦ rw q (e (λ same. ground arith))
]

pub share_small : (x : ℕ) → x < 2 ^ 62 → share x ≡ x
share_small x h = ground arith

pub is_on_small : (x : ℕ) → x < 2 ^ 62 → is_on x ≡ 1
is_on_small x h = ground arith

pub count-apart : (i j : ℕ) (is : List ℕ) → count i is ≡ 0 → 0 < count j is → count j (i ∷ []) ≡ 0
count-apart i j is e p = elim (Bool-cases (i == j)) [
  | inl q ↦
      let same : i ≡ j = ground arith in
      let counts : count i is ≡ count j is = ap (λ k. count k is) same in
      absurd (omega (arith, counts))
  | inr q ↦ rw q refl
]

pub IsNoDup-head : (i : ℕ) (is : List ℕ) → IsNoDup (i ∷ is) → count i is ≡ 0
IsNoDup-head i is h = ground (arith, h i)

pub IsNoDup-tail : (i : ℕ) (is : List ℕ) → IsNoDup (i ∷ is) → IsNoDup is
IsNoDup-tail i is h j = ground (arith, h j)

pub share_on : (r : ℕ) → (r == runtime_inf) ≡ false → share r ≡ r
share_on r q = rw q refl
