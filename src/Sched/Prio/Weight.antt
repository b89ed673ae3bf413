-- ===== src/Sched/Prio/Weight.antt =====
-- The load weights of `set_load_weight` (kernel/sched/core.c).
use kernel_programming.Prelude.{
  ℕ, zero, suc, ◌≤◌, ◌<◌, ◌*◌, ◌+◌, ◌^◌, ◌≡◌, arith, refl, true, Bool, leb, ◌&&◌, get_or, ◌⊎◌, inl,
  inr, subst, sym,
}
use kernel_programming.Sched.Prio.{sched_prio_to_weight, sched_prio_to_wmult}

pub weight_at : ℕ → ℕ
weight_at i = get_or sched_prio_to_weight i 0

pub wmult_at : ℕ → ℕ
wmult_at i = get_or sched_prio_to_wmult i 0

abbrev all_below : (ℕ → Bool) → ℕ → Bool
all_below f zero = true
all_below f (suc n) = f n && all_below f n

last_or_below : (i n : ℕ) → i < suc n → (i ≡ n) ⊎ (i < n)
last_or_below i n lt = omega arith

all_below-lem : (f : ℕ → Bool) (n i : ℕ) → all_below f n ≡ true → i < n → f i ≡ true
all_below-lem f zero i all lt = ground arith
all_below-lem f (suc n) i all lt = elim (last_or_below i n lt) [
  | inl eq ↦ subst (λ m. f m ≡ true) (sym eq) (ground arith)
  | inr below ↦ all_below-lem f n i (ground arith) below
]

is_inverse : ℕ → Bool
is_inverse i =
    leb (weight_at i * wmult_at i) (2 ^ 32 + weight_at i)
    && leb (2 ^ 32) (weight_at i * wmult_at i + weight_at i)

all_inverse : all_below is_inverse 40 ≡ true
unfolding is_inverse weight_at wmult_at
all_inverse = refl

is_inverse-lem :
    (i : ℕ)
    → is_inverse i ≡ true
    → (weight_at i * wmult_at i ≤ 2 ^ 32 + weight_at i)
      × (2 ^ 32 ≤ weight_at i * wmult_at i + weight_at i)
unfolding is_inverse
is_inverse-lem i eq = ground arith

-- At each of the forty nice levels the product of the weight and of the multiplier differs from
-- 2 ^ 32 by at most the weight, so the multiplier is the inverse of the weight up to rounding.
pub sched_prio_to_wmult-inverse :
    (i : ℕ)
    → i < 40
    → (weight_at i * wmult_at i ≤ 2 ^ 32 + weight_at i)
      × (2 ^ 32 ≤ weight_at i * wmult_at i + weight_at i)
sched_prio_to_wmult-inverse i lt = is_inverse-lem i (all_below-lem is_inverse 40 i all_inverse lt)
