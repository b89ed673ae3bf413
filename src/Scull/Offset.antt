-- ===== src/Scull/Offset.antt =====
-- The place of a position in HW4-xmerge/Labs/lab9/lab09-examples/scull.c: the quanta follow each
-- other.
use native.Mathlib.Nat.{
  div-div-eq-div-mul, div-add-mod, mul-add, mul_assoc, mod-lt, mod-eq_of_lt, mul-add-div,
  mul-add-mod_self_left, div-eq_of_lt, mod-eq-sub-mul-div,
}
use kernel_programming.Scull.{ScullDev, place_of, itemsize_of, has_itemsize}
use kernel_programming.Prelude.{
  ℕ, ◌+◌, ◌-◌, ◌*◌, ◌/◌, ◌%◌, ◌<◌, ◌≡◌, sym, ap, arith, ◌∙◌, ◌≤◌, ◌^◌, refl, false, not,
}

module _ (p q s : ℕ) (q_positive : 0 < q) where
  rest_lem : p % (q * s) ≡ q * (p / q % s) + p % q
  rest_lem =
      let whole : p ≡ q * (p / q) + p % q = sym (div-add-mod p q) in
      let a : p / q ≡ s * (p / q / s) + p / q % s = sym (div-add-mod (p / q) s) in
      let expanded : q * (p / q) ≡ q * s * (p / q / s) + q * (p / q % s) =
        ap (λ x. q * x) a ∙ mul-add q _ _ ∙ ap (λ x. x + q * (p / q % s)) (sym (mul_assoc q s _)) in
      mod-eq-sub-mul-div p (q * s)
      ∙ ap (λ x. p - q * s * x) (sym (div-div-eq-div-mul p q s))
      ∙ omega (arith, whole, expanded)

  pub rest-div : p % (q * s) / q ≡ p / q % s
  rest-div =
      ap (λ x. x / q) rest_lem
      ∙ mul-add-div q_positive _ _
      ∙ omega (arith, div-eq_of_lt (mod-lt p q_positive))

  pub rest-mod : p % (q * s) % q ≡ p % q
  rest-mod =
      ap (λ x. x % q) rest_lem ∙ mul-add-mod_self_left q _ _ ∙ mod-eq_of_lt (mod-lt p q_positive)

  -- Within the rest of a quantum the place moves with the position.
  pub near_lem :
      (j n : ℕ) → p ≤ j → j < p + n → n ≤ q - p % q → (j / q ≡ p / q) × (j % q ≡ p % q + (j - p))
  near_lem j n lo hi fits =
      let whole : p ≡ q * (p / q) + p % q = sym (div-add-mod p q) in
      let inside : p % q + (j - p) < q = omega (arith, fits, mod-lt p q_positive) in
      let j_is : j ≡ q * (p / q) + (p % q + (j - p)) = omega (arith, whole) in
      (
        ap (λ x. x / q) j_is ∙ mul-add-div q_positive _ _ ∙ omega (arith, div-eq_of_lt inside),
        ap (λ x. x % q) j_is ∙ mul-add-mod_self_left q _ _ ∙ mod-eq_of_lt inside,
      )

  -- In one quantum, positions differ as the offsets do.
  pub same_quantum : (j : ℕ) → j / q ≡ p / q → j + p % q ≡ p + j % q
  same_quantum j e = omega (arith, div-add-mod p q, div-add-mod j q, ap (λ x. q * x) e)

module _ (q s : ℕ) where
  -- Two positions with the same node and the same entry are in the same quantum.
  pub same_entry : (a b : ℕ) → a / s ≡ b / s → a % s ≡ b % s → a ≡ b
  same_entry a b e f = omega (arith, div-add-mod a s, div-add-mod b s, ap (λ x. s * x) e, f)

itemsize_of_lem :
    (dev : ScullDev) → dev.quantum * dev.qset < 2 ^ 31 → itemsize_of dev ≡ dev.quantum * dev.qset
itemsize_of_lem dev narrow = mod-eq_of_lt (omega (arith, narrow))

-- A product of positive parameters that an int holds is a size of an item.
pub has_itemsize_lem :
    (dev : ScullDev)
    → 0 < dev.quantum
    → 0 < dev.qset
    → dev.quantum * dev.qset < 2 ^ 31
    → not (has_itemsize dev) ≡ false
has_itemsize_lem dev q s narrow =
    let positive : 0 < dev.quantum * dev.qset = grind arith in
    rw (itemsize_of_lem dev narrow) (ground (arith, positive))

-- A position whose node has an index that is an int.
abbrev pub InRange : ScullDev → ℕ → Type 0
InRange dev p = p / dev.quantum / dev.qset < 2 ^ 31

pub place_of_lem :
    (dev : ScullDev) (p : ℕ)
    → 0 < dev.quantum
    → dev.quantum * dev.qset < 2 ^ 31
    → InRange dev p
    → place_of dev p ≡ record {
      item = p / dev.quantum / dev.qset;
      s_pos = p / dev.quantum % dev.qset;
      q_pos = p % dev.quantum;
    }
unfolding place_of
place_of_lem dev p positive narrow range =
    let item : p / dev.quantum / dev.qset % 2 ^ 32 ≡ p / dev.quantum / dev.qset =
      mod-eq_of_lt (omega (arith, range)) in
    rw
      (
        itemsize_of_lem dev narrow,
        sym (div-div-eq-div-mul p dev.quantum dev.qset),
        item,
        rest-div p dev.quantum dev.qset positive,
        rest-mod p dev.quantum dev.qset positive,
      )
      refl
