-- ===== src/Scull/Prepared.antt =====
-- The chain on which `scull_write` of HW4-xmerge/Labs/lab9/lab09-examples/scull.c works.
use kernel_programming.Prelude.{
  ◌++◌, [], ◌∷◌, ℕ, ◌<◌, ◌≡◌, refl, arith, ◌∙◌, Bool, true, false, not, List, Option, none, some,
  length, ◌&&◌, if◌then◌else◌, Bool-cases, inl, inr,
}
use kernel_programming.Scull.{
  Block, array_at, quantum_in, ScullDev, Quantum, Qset, Answers, Ret, scull_follow, place_of,
  quantum_at,
}
use kernel_programming.Scull.Write.{put_array, lacks_array, write_quantum, write_at, out_of_memory}
use kernel_programming.Scull.Chain.{follow_from-quantum_at, follow_from-found, put_array_lem}

-- The kernel has memory and copies everything.
pub record IsGood (answers : Answers) : Type 0 where
  pub nodes : (k : ℕ) → answers.node k ≡ true
  pub arrays : answers.array ≡ true
  pub quanta : answers.quantum_ok ≡ true
  pub copied : answers.uncopied ≡ 0

-- The chain on which a write works.
abbrev pub prepared : Answers → List Qset → ℕ → List Qset
prepared answers chain item =
    let followed = (scull_follow answers chain item).0.1 in
    if lacks_array followed item then put_array followed item else followed

pub prepared-quantum_at :
    (answers : Answers) (chain : List Qset) (item j s : ℕ)
    → quantum_at (prepared answers chain item) j s ≡ quantum_at chain j s
prepared-quantum_at answers chain item j s =
    let followed = (scull_follow answers chain item).0.1 in
    elim (Bool-cases (lacks_array followed item)) [
      | inl e ↦ rw e (
          (put_array_lem followed item j s e).0
          ∙ follow_from-quantum_at answers.node 0 item chain j s)
      | inr e ↦ rw e (follow_from-quantum_at answers.node 0 item chain j s)
    ]

pub length-prepared :
    (answers : Answers) (chain : List Qset) (item : ℕ)
    → IsGood answers
    → item < length (prepared answers chain item)
length-prepared answers chain item good =
    let followed = (scull_follow answers chain item).0.1 in
    let found = (follow_from-found answers.node 0 item chain good.nodes).1 in
    elim (Bool-cases (lacks_array followed item)) [
      | inl e ↦ rw e (omega (arith, (put_array_lem followed item 0 0 e).1, found))
      | inr e ↦ rw e found
    ]

abbrev pub or_fresh : Option Quantum → Quantum → Quantum
or_fresh none fresh = fresh
or_fresh (some bytes) fresh = bytes

if_and_not : (b : Bool) (x y : Ret) → (if b && not true then x else y) ≡ y
if_and_not true x y = refl
if_and_not false x y = refl

-- What is allocated before the quantum, and with it.
abbrev pub given : Answers → List Qset → ℕ → List Block
given answers chain item =
    let ((_, followed), nodes) = scull_follow answers chain item in
    if lacks_array followed item then nodes ++ array_at item ∷ [] else nodes

abbrev pub with_quantum : Option Quantum → List Block → Block → List Block
with_quantum none log b = log ++ b ∷ []
with_quantum (some _) log b = log

allocated :
    (o : Option Quantum) (ok : Bool) (x : Ret) (write : Quantum → List Block → Ret)
    (fresh : Quantum) (log : List Block) (b : Block)
    → ok ≡ true
    → (elim o as (λ o'. Ret) [
      | none ↦ if not ok then x else write fresh (log ++ b ∷ [])
      | some bytes ↦ write bytes log
    ])
      ≡ write (or_fresh o fresh) (with_quantum o log b)
allocated none ok x write fresh log b e = rw e refl
allocated (some bytes) ok x write fresh log b e = refl

pub write_at_lem :
    (answers : Answers) (dev : ScullDev) (count : ℕ) (buf : Quantum) (p : ℕ)
    → IsGood answers
    → let place = place_of dev p in
      let chain = prepared answers dev.chain place.item in
      let o = quantum_at chain place.item place.s_pos in
      write_at answers dev count buf p
      ≡ write_quantum answers
          (record dev { chain = chain })
          place
          (or_fresh o answers.fresh)
          (with_quantum o (given answers dev.chain place.item) (quantum_in place.item place.s_pos))
          count
          buf
          p
unfolding write_at
write_at_lem answers dev count buf p good =
    let place = place_of dev p in
    let chain = (scull_follow answers dev.chain place.item).0.1 in
    let dev' = record dev { chain = prepared answers dev.chain place.item } in
    let found = (follow_from-found answers.node 0 place.item dev.chain good.nodes).0 in
    let log = given answers dev.chain place.item in
    rw (found, good.arrays)
      (if_and_not (lacks_array chain place.item)
          (out_of_memory (record dev { chain = chain })
            (scull_follow answers dev.chain place.item).1 p)
          _
        ∙ allocated (quantum_at dev'.chain place.item place.s_pos) answers.quantum_ok
            (out_of_memory dev' log p)
            (λ bytes l. write_quantum answers dev' place bytes l count buf p) answers.fresh log
            (quantum_in place.item place.s_pos) good.quanta)
