-- ===== src/Scull/Lifetime.antt =====
-- The device of HW4-xmerge/Labs/lab9/lab09-examples/scull.c from the loading of the module on: no
-- block is lost by a read or a write, and none escapes `scull_trim`.
use kernel_programming.Prelude.{
  ℕ, ◌%◌, ◌≤◌, ◌≡◌, refl, arith, List, [], ◌++◌, some, ◌==◌, if◌then◌else◌, if_cases, ◌∙◌, not,
  some_eq, leb, subst, Bool-cases, inl, inr, ap,
}
use kernel_programming.Scull.{
  scull_read, scull_open, scull_trim, Params, Quantum, Qset, ScullDev, Answers, Ret, Block, node_at,
  array_at, quantum_in, quantum_at, trim_frees, has_itemsize,
}
use kernel_programming.Scull.Write.{scull_write, lacks_array}
use kernel_programming.Scull.Freed.{freed, held, Fits, trim_frees-held, freed-append}
use kernel_programming.Scull.Blocks.{
  KeepsDevice, KeepsDevice-refl, RetKeeps, write_at-RetKeeps, read_at-RetKeeps,
}

some_ret : {r r' : Ret} (P : Ret → Type 0) → some r ≡ some r' → P r → P r'
some_ret {r = r} P e = subst P (some_eq r e)

-- A read or a write, whatever memory the kernel has, and what it allocates.
pub data Call : ScullDev → ScullDev → List Block → Type 0 where
  reads :
      (answers : Answers) (dev : ScullDev) (count p : ℕ) (r : Ret)
      → scull_read answers dev count p ≡ some r
      → Call dev r.dev r.kmallocs
  writes :
      (answers : Answers) (dev : ScullDev) (count : ℕ) (buf : Quantum) (p : ℕ) (r : Ret)
      → scull_write answers dev count buf p ≡ some r
      → Call dev r.dev r.kmallocs

-- The device after opens, reads and writes, with all that kmalloc gave since it was last trimmed,
-- which an open for writing alone does. The parameters may have changed before an open.
pub data Reach (dev : ScullDev) : ScullDev → List Block → Type 0 where
  loaded : Reach dev dev []
  opens :
      (params : Params) (f_flags : ℕ) {dev' : ScullDev} {log : List Block}
      → Reach dev dev' log
      → Reach dev (scull_open params f_flags dev') (if f_flags % 4 == 1 then [] else log)
  calls :
      {d d' : ScullDev} {log given : List Block}
      → Reach dev d log
      → Call d d' given
      → Reach dev d' (log ++ given)

Call-KeepsDevice :
    {dev dev' : ScullDev} {log : List Block} → Call dev dev' log → KeepsDevice dev dev' log
unfolding scull_read scull_write
Call-KeepsDevice (reads answers dev count p r e) =
    if_cases (λ o. o ≡ some r → RetKeeps dev r) (leb dev.size p) _ _
      (λ _ q. some_ret (RetKeeps dev) q (KeepsDevice-refl dev))
      (λ _.
        if_cases (λ o. o ≡ some r → RetKeeps dev r) (not (has_itemsize dev)) _ _
          (λ _ q. absurd (ground (arith, q)))
          (λ _ q. some_ret (RetKeeps dev) q (read_at-RetKeeps answers dev _ p)))
      e
Call-KeepsDevice (writes answers dev count buf p r e) =
    if_cases (λ o. o ≡ some r → RetKeeps dev r) (not (has_itemsize dev)) _ _
      (λ _ q. absurd (ground (arith, q)))
      (λ positive q.
        some_ret (RetKeeps dev) q
          (write_at-RetKeeps answers dev count buf p (ground (arith, positive))))
      e

-- All that was given since the last trim is held, and no array has a quantum that is not freed.
record IsAccounted (dev : ScullDev) (log : List Block) : Type 0 where
  fits : Fits dev
  accounts : (b : Block) → held b dev.chain ≡ freed b log

held-nil : (b : Block) → held b [] ≡ 0
unfolding lacks_array quantum_at
held-nil (node_at k) = ground arith
held-nil (array_at k) = refl
held-nil (quantum_in k s) = refl

empty-IsAccounted : (dev : ScullDev) → dev.chain ≡ [] → IsAccounted dev []
unfolding quantum_at
empty-IsAccounted dev e = record {
  fits = λ k s p. rw e refl;
  accounts = λ b. ap (held b) e ∙ held-nil b;
}

Reach-IsAccounted :
    {dev dev' : ScullDev} {log : List Block}
    → dev.chain ≡ []
    → Reach dev dev' log
    → IsAccounted dev' log
unfolding scull_open scull_trim
Reach-IsAccounted {dev = dev} e loaded = empty-IsAccounted dev e
Reach-IsAccounted e (opens params f_flags {dev'} {log} r) = elim (Bool-cases (f_flags % 4 == 1)) [
  | inl trims ↦ rw trims (empty-IsAccounted (scull_trim params dev') refl)
  | inr other ↦ rw other (Reach-IsAccounted e r)
]
Reach-IsAccounted e (calls {d} {d'} {log} {given} r c) =
    let kept = Call-KeepsDevice c in
    let before = Reach-IsAccounted e r in
    record {
      fits = λ k s p.
          kept.chain.fits k s (omega (arith, kept.qset))
            (before.fits k s (omega (arith, kept.qset)));
      accounts =
          λ b. omega (arith, kept.chain.accounts b, before.accounts b, freed-append b log given);
    }

held-once : (b : Block) (c : List Qset) → held b c ≤ 1
held-once (node_at k) c = ground arith
held-once (array_at k) c = ground arith
held-once (quantum_in k s) c = ground arith

-- From the device that has no memory on, whatever is opened, read and written, whatever the
-- parameters are then, and whichever allocations and copies fail: `scull_trim` frees every node,
-- array and quantum that kmalloc gave since the device was last trimmed as often as it was given,
-- and nothing else, and that is once at most. So no block is lost, and none is freed twice.
pub Reach-trim_frees :
    (dev dev' : ScullDev) (log : List Block) (b : Block)
    → dev.chain ≡ []
    → Reach dev dev' log
    → (freed b (trim_frees dev') ≡ freed b log) × (freed b log ≤ 1)
Reach-trim_frees dev dev' log b e r =
    let h = Reach-IsAccounted e r in
    (
      trim_frees-held dev' b h.fits ∙ h.accounts b,
      omega (arith, h.accounts b, held-once b dev'.chain),
    )
