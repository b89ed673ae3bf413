-- ===== src/Sched/Calls/Attr/Copy.antt =====
-- kernel/sched/core.c, the attributes that `sched_copy_attr` accepts.
use kernel_programming.Prelude.{
  ℕ, zero, suc, ◌+◌, ◌-◌, ◌<◌, ◌≤◌, ◌≡◌, ◌⊎◌, inl, inr, refl, true, false, Option, some, none,
  Option-cases, Bool-cases, arith, ℕ_discrete, ◌==◌, ltb, ◌||◌, if◌then◌else◌, subst, sym, ◌∙◌,
}
use kernel_programming.Prelude.Int.{negsuc, pos, ◌≤ℤ◌}
use kernel_programming.Sched.Prio.{SchedAttr}
use kernel_programming.Sched.Calls.Attr.{
  UserAttr, Copied, copied, unknown_bytes, copy_known, copy_sized, sched_copy_attr, sizeof_attr,
}

bytes_zero :
    (n addr : ℕ) (byte : ℕ → Option ℕ) (next : Copied) (a : SchedAttr)
    → unknown_bytes n addr byte next ≡ copied a
    → (next ≡ copied a) × ((i : ℕ) → addr ≤ i → i < addr + n → byte i ≡ some 0)
unfolding unknown_bytes
bytes_zero zero addr byte next a e = (e, λ i lo hi. absurd (omega arith))
bytes_zero (suc n) addr byte next a e = elim (Option-cases (byte addr)) [
  | inl q ↦ absurd (ground (arith, q))
  | inr (val, q) ↦ elim (Bool-cases (val == 0)) [
    | inl z ↦
        let (ends, rest) = bytes_zero n (addr + 1) byte next a (ground (arith, q, z)) in
        (
          ends,
          λ i lo hi. elim (ℕ_discrete addr i) [
            | yes same ↦ ground (arith, q, z, same)
            | no ne ↦ rest i (omega arith) (omega arith)
          ],
        )
    | inr nz ↦ absurd (ground (arith, q, nz))
  ]
]

copy_known-nice :
    (u : Option SchedAttr) (a : SchedAttr)
    → copy_known u ≡ copied a
    → (negsuc 19 ≤ℤ a.sched_nice) × (a.sched_nice ≤ℤ pos 19)
copy_known-nice none a e = absurd (ground arith)
copy_known-nice (some attr) a e = ground arith

-- The part behind the size word.
sized :
    (u : UserAttr) (word size : ℕ) (a : SchedAttr)
    → (size ≡ 48) ⊎ (size ≡ word)
    → (ltb 4096 word || ltb size sizeof_attr) ≡ false
    → unknown_bytes (size - sizeof_attr) sizeof_attr u.byte (copy_known u.attr) ≡ copied a
    → ((word ≡ 0) ⊎ (size ≡ word))
    → ((word ≡ 0) ⊎ ((48 ≤ word) × (word ≤ 4096)))
      × ((i : ℕ) → 48 ≤ i → i < word → u.byte i ≡ some 0)
      × (negsuc 19 ≤ℤ a.sched_nice)
      × (a.sched_nice ≤ℤ pos 19)
sized u word size a c guard e w =
    let (ends, zeros) =
      bytes_zero (size - sizeof_attr) sizeof_attr u.byte (copy_known u.attr) a e in
    let (lo, hi) = copy_known-nice u.attr a ends in
    (ground (arith, guard, w), λ i p q. zeros i p (ground (arith, w)), lo, hi)

-- An attribute that is copied was accessible, its size was none or from 48 bytes to a page, every byte
-- behind the 48 that this kernel knows was read as zero, and its nice value is from -20 to 19.
pub sched_copy_attr-copied :
    (u : UserAttr) (a : SchedAttr)
    → sched_copy_attr u ≡ copied a
    → (u.accessible ≡ true)
      × ((word : ℕ) × (u.size ≡ some word)
          × ((word ≡ 0) ⊎ ((48 ≤ word) × (word ≤ 4096)))
          × ((i : ℕ) → 48 ≤ i → i < word → u.byte i ≡ some 0))
      × (negsuc 19 ≤ℤ a.sched_nice)
      × (a.sched_nice ≤ℤ pos 19)
unfolding sched_copy_attr
sched_copy_attr-copied u a e = elim (Bool-cases u.accessible) [
  | inr shut ↦ absurd (ground (arith, shut))
  | inl yes_access ↦ elim (Option-cases u.size) [
    | inl none_read ↦ absurd (ground (arith, yes_access, none_read))
    | inr (word, q) ↦
        let size = if word == 0 then sizeof_attr else word in
        let opens : sched_copy_attr u ≡ copy_sized u u.size = rw yes_access refl in
        let rest : copy_sized u (some word) ≡ copied a =
          subst (λ s. copy_sized u s ≡ copied a) q (sym opens ∙ e) in
        elim (Bool-cases (ltb 4096 word || ltb size sizeof_attr)) [
          | inl bad ↦ absurd (ground (arith, bad))
          | inr guard ↦
              let (range, zeros, lo, hi) =
                sized u word size a (ground arith) guard (ground (arith, guard)) (ground arith) in
              (yes_access, (word, q, range, zeros), lo, hi)
        ]
  ]
]
