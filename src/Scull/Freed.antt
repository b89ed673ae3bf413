-- ===== src/Scull/Freed.antt =====
-- The memory of the device of HW4-xmerge/Labs/lab9/lab09-examples/scull.c: what it holds and what
-- `scull_trim` frees.
use kernel_programming.Prelude.{
  ℕ, zero, suc, ◌+◌, ◌≤◌, ◌<◌, ◌≡◌, refl, subst, ◌∙◌, arith, Bool, false, List, [], ◌∷◌, ◌++◌,
  Option, none, some, length, ◌==◌, ◌&&◌, ltb, leb, if◌then◌else◌,
}
use kernel_programming.Scull.{
  Quantum, Qset, ScullDev, Block, node_at, array_at, quantum_in, free_entries, free_array,
  free_chain, trim_frees, quantum_at,
}
use kernel_programming.Scull.Write.{lacks_array}

abbrev pub same_block : Block → Block → Bool
same_block (node_at k) (node_at j) = k == j
same_block (array_at k) (array_at j) = k == j
same_block (quantum_in k s) (quantum_in j t) = k == j && s == t
same_block _ _ = false

-- How often a block is freed.
abbrev pub freed : Block → List Block → ℕ
freed b [] = 0
freed b (x ∷ log) = (if same_block x b then 1 else 0) + freed b log

abbrev pub one_if : Option Quantum → ℕ
one_if none = 0
one_if (some _) = 1

-- How often the chain holds a block.
abbrev pub held : Block → List Qset → ℕ
held (node_at k) chain = if ltb k (length chain) then 1 else 0
held (array_at k) chain = if lacks_array chain k then 0 else 1
held (quantum_in k s) chain = one_if (quantum_at chain k s)

pub freed-append : (b : Block) (l m : List Block) → freed b (l ++ m) ≡ freed b l + freed b m
freed-append b [] m = omega arith
freed-append b (x ∷ l) m = omega (arith, freed-append b l m)

freed-free_entries :
    (a : ℕ → Option Quantum) (k i n j s : ℕ)
    → freed (quantum_in j s) (free_entries a k i n)
      ≡ (if k == j && leb i s && ltb s (i + n) then one_if (a s) else 0)
unfolding free_entries
freed-free_entries a k i zero j s = ground arith
freed-free_entries a k i (suc n) j s = ground (arith, freed-free_entries a k (i + 1) n j s)

entries-freed :
    (a : ℕ → Option Quantum) (k i n j : ℕ)
    → (freed (node_at j) (free_entries a k i n) ≡ 0)
      × (freed (array_at j) (free_entries a k i n) ≡ 0)
unfolding free_entries
entries-freed a k i zero j = (refl, refl)
entries-freed a k i (suc n) j = ground (arith, entries-freed a k (i + 1) n j)

-- A kind of block: what its block at a node is, and how often a node has it.
module _ (qset : ℕ) (b : ℕ → Block) (has : Option (ℕ → Option Quantum) → ℕ) where
  abbrev FreesOwn : Type 0
  FreesOwn =
      (k j : ℕ) (o : Option (ℕ → Option Quantum))
      → freed (b j) (free_array qset k o) + freed (b j) (node_at k ∷ [])
        ≡ (if k == j then has o else 0)

  had : List Qset → ℕ → ℕ
  had [] d = 0
  had (q ∷ chain) zero = has q.data_of
  had (q ∷ chain) (suc d) = had chain d

  freed-cons :
      (k j : ℕ) (q : Qset) (chain : List Qset)
      → FreesOwn
      → freed (b j) (free_chain qset k (q ∷ chain))
        ≡ (if k == j then has q.data_of else 0) + freed (b j) (free_chain qset (k + 1) chain)
  unfolding free_chain
  freed-cons k j q chain own =
      freed-append (b j) (free_array qset k q.data_of) (node_at k ∷ free_chain qset (k + 1) chain)
      ∙ omega (arith, own k j q.data_of)

  freed-below :
      (k j : ℕ) (chain : List Qset) → FreesOwn → j < k → freed (b j) (free_chain qset k chain) ≡ 0
  unfolding free_chain
  freed-below k j [] own lt = refl
  freed-below k j (q ∷ chain) own lt =
      ground (arith, freed-cons k j q chain own, freed-below (k + 1) j chain own (omega arith))

  freed-had :
      (k d : ℕ) (chain : List Qset)
      → FreesOwn
      → freed (b (k + d)) (free_chain qset k chain) ≡ had chain d
  unfolding had free_chain
  freed-had k d [] own = refl
  freed-had k zero (q ∷ chain) own =
      ground (
        arith,
        freed-cons k (k + 0) q chain own,
        freed-below (k + 1) (k + 0) chain own (omega arith),
      )
  freed-had k (suc d) (q ∷ chain) own =
      let rest : freed (b (k + suc d)) (free_chain qset (k + 1) chain) ≡ had chain d =
        subst (λ j. freed (b j) (free_chain qset (k + 1) chain) ≡ had chain d) (omega arith)
          (freed-had (k + 1) d chain own) in
      ground (arith, freed-cons k (k + suc d) q chain own, rest)

  freed-all :
      (chain : List Qset) (k : ℕ) → FreesOwn → freed (b k) (free_chain qset 0 chain) ≡ had chain k
  freed-all chain k own =
      subst (λ j. freed (b j) (free_chain qset 0 chain) ≡ had chain k) (omega arith)
        (freed-had 0 k chain own)

entry : ℕ → ℕ → Option (ℕ → Option Quantum) → ℕ
entry qset s none = 0
entry qset s (some a) = if ltb s qset then one_if (a s) else 0

arrays : Option (ℕ → Option Quantum) → ℕ
arrays none = 0
arrays (some _) = 1

own_node : (qset : ℕ) → FreesOwn qset node_at (λ o. 1)
unfolding free_array
own_node qset k j none = ground arith
own_node qset k j (some a) = ground (
  arith,
  freed-append (node_at j) (free_entries a k 0 qset) (array_at k ∷ []),
  entries-freed a k 0 qset j,
)

own_array : (qset : ℕ) → FreesOwn qset array_at arrays
unfolding arrays free_array
own_array qset k j none = ground arith
own_array qset k j (some a) = ground (
  arith,
  freed-append (array_at j) (free_entries a k 0 qset) (array_at k ∷ []),
  entries-freed a k 0 qset j,
)

own_quantum : (qset s : ℕ) → FreesOwn qset (λ k. quantum_in k s) (entry qset s)
unfolding entry free_array
own_quantum qset s k j none = ground arith
own_quantum qset s k j (some a) = ground (
  arith,
  freed-append (quantum_in j s) (free_entries a k 0 qset) (array_at k ∷ []),
  freed-free_entries a k 0 qset j s,
)

had_node :
    (qset : ℕ) (chain : List Qset) (k : ℕ)
    → had qset node_at (λ o. 1) chain k ≡ held (node_at k) chain
unfolding had
had_node qset [] k = ground arith
had_node qset (q ∷ chain) zero = ground arith
had_node qset (q ∷ chain) (suc k) = ground (arith, had_node qset chain k)

had_array :
    (qset : ℕ) (chain : List Qset) (k : ℕ)
    → had qset array_at arrays chain k ≡ held (array_at k) chain
unfolding had arrays lacks_array
had_array qset [] k = refl
had_array qset (q ∷ chain) zero = ground arith
had_array qset (q ∷ chain) (suc k) = had_array qset chain k

had_quantum :
    (qset s : ℕ) (chain : List Qset) (k : ℕ)
    → had qset (λ k. quantum_in k s) (entry qset s) chain k
      ≡ (if ltb s qset then held (quantum_in k s) chain else 0)
unfolding had entry quantum_at
had_quantum qset s [] k = ground arith
had_quantum qset s (q ∷ chain) zero = ground arith
had_quantum qset s (q ∷ chain) (suc k) = had_quantum qset s chain k

-- No array has an entry behind the first `qset`.
abbrev pub Fits : ScullDev → Type 0
Fits dev = (k s : ℕ) → dev.qset ≤ s → quantum_at dev.chain k s ≡ none

-- `scull_trim` frees each block that the device holds exactly once, and no other, if no array has an
-- entry behind the first `qset`.
pub trim_frees-held :
    (dev : ScullDev) (b : Block) → Fits dev → freed b (trim_frees dev) ≡ held b dev.chain
unfolding trim_frees
trim_frees-held dev (node_at k) fits =
    freed-all dev.qset node_at (λ o. 1) dev.chain k (own_node dev.qset)
    ∙ had_node dev.qset dev.chain k
trim_frees-held dev (array_at k) fits =
    freed-all dev.qset array_at arrays dev.chain k (own_array dev.qset)
    ∙ had_array dev.qset dev.chain k
trim_frees-held dev (quantum_in k s) fits =
    freed-all dev.qset (λ k. quantum_in k s) (entry dev.qset s) dev.chain k (own_quantum dev.qset s)
    ∙ had_quantum dev.qset s dev.chain k
    ∙ ground (arith, fits k s)
