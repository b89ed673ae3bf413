-- ===== src/Scull/Blocks.antt =====
-- What a read or a write of HW4-xmerge/Labs/lab9/lab09-examples/scull.c leaves of the memory of the
-- device, whichever allocations and copies fail.
use kernel_programming.Prelude.{
  ℕ, zero, suc, ◌+◌, ◌*◌, ◌/◌, ◌%◌, ◌≤◌, ◌<◌, ◌≡◌, refl, arith, List, [], ◌∷◌, ◌++◌, Option, none,
  some, ◌==◌, if◌then◌else◌, if_cases, not, ◌&&◌, Bool, false, length, Bool-cases, inl, inr,
}
use native.Mathlib.Nat.{div-lt_iff_lt-mul, mod-lt, mul_comm, mod-le}
use kernel_programming.Scull.{
  scull_follow, read_at, Quantum, Qset, ScullDev, Answers, Ret, Place, Block, array_at, quantum_in,
  quantum_at, place_of, itemsize_of,
}
use kernel_programming.Scull.Write.{write_at, write_quantum, put_array, lacks_array, out_of_memory}
use kernel_programming.Scull.Chain.{put_array_lem}
use kernel_programming.Scull.Prepared.{with_quantum}
use kernel_programming.Scull.Freed.{freed, freed-append}
use kernel_programming.Scull.Kept.{
  KeepsBlocks, KeepsBlocks-refl, KeepsBlocks-trans, follow_from-KeepsBlocks, put_array-KeepsBlocks,
  put_quantum-KeepsBlocks, follow_from-bound, lacks-put_array,
}

-- What a call leaves of a device, with the log of what was allocated.
pub record KeepsDevice (dev dev' : ScullDev) (log : List Block) : Type 0 where
  pub chain : KeepsBlocks dev.qset dev.chain dev'.chain log
  pub qset : dev'.qset ≡ dev.qset

pub KeepsDevice-refl : (dev : ScullDev) → KeepsDevice dev dev []
KeepsDevice-refl dev = record { chain = KeepsBlocks-refl dev.qset dev.chain; qset = refl }

abbrev pub RetKeeps : ScullDev → Ret → Type 0
RetKeeps dev r = KeepsDevice dev r.dev r.kmallocs

div-lt_part : (q s m p : ℕ) → 0 < m → m ≤ q * s → p % m / q < s
div-lt_part zero s m p h le = absurd (omega arith)
div-lt_part (suc q) s m p h le =
    (div-lt_iff_lt-mul (omega arith)).1 (omega (arith, mul_comm (suc q) s, mod-lt p h, le))

-- What is given with the quantum is what was given before, and the quantum if there was none.
freed-with_quantum :
    (o : Option Quantum) (log : List Block) (b x : Block)
    → freed x (with_quantum o log b) ≡ freed x log + freed x (with_quantum o [] b)
freed-with_quantum none log b x = freed-append x log (b ∷ [])
freed-with_quantum (some bytes) log b x = omega arith

write_quantum-RetKeeps :
    (answers : Answers) (dev dev' : ScullDev) (place : Place) (bytes : Quantum) (log : List Block)
    (count : ℕ) (buf : Quantum) (p : ℕ)
    → KeepsDevice dev dev' log
    → place.s_pos < dev.qset
    → place.item < length dev'.chain
    → lacks_array dev'.chain place.item ≡ false
    → RetKeeps dev (
        write_quantum answers dev' place bytes
          (with_quantum
            (quantum_at dev'.chain place.item place.s_pos)
            log
            (quantum_in place.item place.s_pos))
          count
          buf
          p)
unfolding write_quantum
write_quantum-RetKeeps answers dev dev' place bytes log count buf p kept small lt has =
    let o = quantum_at dev'.chain place.item place.s_pos in
    let b = quantum_in place.item place.s_pos in
    let put = λ (q : Quantum).
      KeepsBlocks-trans kept.chain
        (put_quantum-KeepsBlocks dev.qset place.item place.s_pos q dev'.chain small lt has)
        (freed-with_quantum o log b) in
    if_cases (RetKeeps dev) (not (answers.uncopied == 0)) _ _
      (λ _. record { chain = put _; qset = kept.qset })
      (λ _. record { chain = put _; qset = kept.qset })

RetKeeps-elim :
    (dev : ScullDev) (o : Option Quantum) (ok : Bool) (x : Ret) (write : Quantum → List Block → Ret)
    (fresh : Quantum) (log : List Block) (b : Block)
    → RetKeeps dev x
    → ((bytes : Quantum) → RetKeeps dev (write bytes (with_quantum o log b)))
    → RetKeeps dev (elim o [
      | none ↦ if not ok then x else write fresh (log ++ b ∷ [])
      | some bytes ↦ write bytes log
    ])
RetKeeps-elim dev none ok x write fresh log b kx kw =
    if_cases (RetKeeps dev) (not ok) _ _ (λ _. kx) (λ _. kw fresh)
RetKeeps-elim dev (some bytes) ok x write fresh log b kx kw = kw bytes

-- The node has an array after `!dptr->data` is dealt with, which is given if there was none.
with_array-KeepsBlocks :
    (qset item : ℕ) (c c' : List Qset) (nodes : List Block)
    → KeepsBlocks qset c c' nodes
    → item < length c'
    → let chain = if lacks_array c' item then put_array c' item else c' in
      let log = if lacks_array c' item then nodes ++ array_at item ∷ [] else nodes in
      KeepsBlocks qset c chain log × (item < length chain) × (lacks_array chain item ≡ false)
with_array-KeepsBlocks qset item c c' nodes kept lt = elim (Bool-cases (lacks_array c' item)) [
  | inl e ↦ rw e (
    KeepsBlocks-trans kept (put_array-KeepsBlocks qset item c' lt e)
        (λ x. freed-append x nodes (array_at item ∷ [])),
    omega (arith, (put_array_lem c' item 0 0 e).1, lt),
    ground (arith, lacks-put_array c' item item lt, e),
  )
  | inr e ↦ rw e (kept, lt, e)
]

pub write_at-RetKeeps :
    (answers : Answers) (dev : ScullDev) (count : ℕ) (buf : Quantum) (p : ℕ)
    → 0 < itemsize_of dev
    → RetKeeps dev (write_at answers dev count buf p)
unfolding write_at place_of
write_at-RetKeeps answers dev count buf p h =
    let place = place_of dev p in
    let ((found, chain), nodes) = scull_follow answers dev.chain place.item in
    let lacks = lacks_array chain place.item in
    let chain' = if lacks then put_array chain place.item else chain in
    let log = if lacks then nodes ++ array_at place.item ∷ [] else nodes in
    let followed = follow_from-KeepsBlocks answers.node place.item dev.qset dev.chain in
    let dev' : ScullDev = record dev { chain = chain' } in
    let short : KeepsDevice dev (record dev { chain = chain }) nodes = record {
      chain = followed;
      qset = refl;
    } in
    if_cases (RetKeeps dev) (not found) _ _ (λ _. short)
      (λ there.
        if_cases (RetKeeps dev) (lacks && not answers.array) _ _ (λ _. short)
          (λ _.
            let small = div-lt_part dev.quantum dev.qset (itemsize_of dev) p h (mod-le _ _) in
            let bound =
              follow_from-bound answers.node 0 place.item dev.chain (ground (arith, there)) in
            let (kept, lt, has) =
              with_array-KeepsBlocks dev.qset place.item dev.chain chain nodes followed bound in
            let ready : KeepsDevice dev dev' log = record { chain = kept; qset = refl } in
            RetKeeps-elim dev (quantum_at chain' place.item place.s_pos) answers.quantum_ok
              (out_of_memory dev' log p)
              (λ bytes l. write_quantum answers dev' place bytes l count buf p) answers.fresh log
              (quantum_in place.item place.s_pos) ready
              (λ bytes.
                write_quantum-RetKeeps answers dev dev' place bytes log count buf p ready small lt
                  has)))

pub read_at-RetKeeps :
    (answers : Answers) (dev : ScullDev) (count p : ℕ) → RetKeeps dev (read_at answers dev count p)
unfolding read_at
read_at-RetKeeps answers dev count p =
    let place = place_of dev p in
    let ((found, chain), nodes) = scull_follow answers dev.chain place.item in
    let short : KeepsDevice dev (record dev { chain = chain }) nodes = record {
      chain = follow_from-KeepsBlocks answers.node place.item dev.qset dev.chain;
      qset = refl;
    } in
    same_kept (quantum_at chain place.item place.s_pos) _ _ short (λ bytes.
      if_cases (RetKeeps dev) (not found) _ _ (λ _. short)
        (λ _. if_cases (RetKeeps dev) (not (answers.uncopied == 0)) _ _ (λ _. short) (λ _. short)))
  where
    same_kept :
        (o : Option Quantum) (x : Ret) (f : Quantum → Ret)
        → RetKeeps dev x
        → ((bytes : Quantum) → RetKeeps dev (f bytes))
        → RetKeeps dev (elim o [ none ↦ x | some bytes ↦ f bytes ])
    same_kept none x f kx kf = kx
    same_kept (some bytes) x f kx kf = kf bytes
