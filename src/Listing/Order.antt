-- ===== src/Listing/Order.antt =====
-- The orders of HW1/myps.c.
use kernel_programming.Prelude.{ℕ, ◌+◌, ◌-◌, ◌%◌, ◌^◌, ◌<◌, ◌≤◌, ◌≡◌, arith, true, false, ltb, leb}
use kernel_programming.Prelude.Int.{pos, ltb_ℤ}
use kernel_programming.Listing.{Psinfo, to_int, descending, psinfo_cmp_vsize}

-- The last 32 bits of the difference.
abbrev low : ℕ → ℕ → ℕ
low a b = (b + 2 ^ 64 - a) % 2 ^ 64 % 2 ^ 32

low_up : (a b : ℕ) → a ≤ b → b < a + 2 ^ 32 → low a b ≡ b - a
low_up a b le near = omega arith

low_down : (a b : ℕ) → a < 2 ^ 63 → b < a → a < b + 2 ^ 32 → low a b ≡ b + 2 ^ 32 - a
low_down a b la lt near = omega arith

sign_lem : (a b : ℕ) → ltb_ℤ (descending a b) (pos 0) ≡ leb (2 ^ 31) (low a b)
unfolding descending to_int
sign_lem a b = ground arith

-- Sizes of less than 2^63 are ordered as they should be, the larger one first, when they differ by
-- less than 2^31; and they are ordered the wrong way round when they differ by more than 2^31 and
-- less than 2^32.
pub psinfo_cmp_vsize-order :
    (a b : Psinfo)
    → a.vsize < 2 ^ 63
    → b.vsize < 2 ^ 63
    → a.vsize < b.vsize + 2 ^ 32
    → b.vsize < a.vsize + 2 ^ 32
    → let first = ltb_ℤ (psinfo_cmp_vsize a b) (pos 0) in
      (a.vsize < b.vsize + 2 ^ 31 → b.vsize < a.vsize + 2 ^ 31 → first ≡ ltb b.vsize a.vsize)
      × (b.vsize + 2 ^ 31 < a.vsize → first ≡ false)
      × (a.vsize + 2 ^ 31 < b.vsize → first ≡ true)
unfolding psinfo_cmp_vsize
psinfo_cmp_vsize-order a b la lb na nb =
    ground (arith, sign_lem a.vsize b.vsize, low_up a.vsize b.vsize, low_down a.vsize b.vsize)
