-- ===== src/Scull/Chain.antt =====
-- The chain of nodes of HW4-xmerge/Labs/lab9/lab09-examples/scull.c: what it holds after it is
-- followed and written.
use kernel_programming.Prelude.{
  ℕ, zero, suc, ◌+◌, ◌<◌, ◌≡◌, refl, arith, Bool, true, List, [], ◌∷◌, some, length, ◌==◌, ◌&&◌,
  if◌then◌else◌,
}
use kernel_programming.Scull.{Quantum, Qset, follow_from, quantum_at}
use kernel_programming.Scull.Write.{put_quantum, put_array, lacks_array}

-- Following the chain adds empty nodes at most, whether or not the memory is there.
pub follow_from-quantum_at :
    (node : ℕ → Bool) (i n : ℕ) (chain : List Qset) (j s : ℕ)
    → quantum_at (follow_from node i n chain).0.1 j s ≡ quantum_at chain j s
unfolding follow_from quantum_at
follow_from-quantum_at node i zero [] zero s = ground arith
follow_from-quantum_at node i zero [] (suc j) s = ground arith
follow_from-quantum_at node i zero (q ∷ chain) j s = refl
follow_from-quantum_at node i (suc n) [] zero s = ground arith
follow_from-quantum_at node i (suc n) [] (suc j) s =
    ground (arith, follow_from-quantum_at node (i + 1) n [] j s)
follow_from-quantum_at node i (suc n) (q ∷ chain) zero s = refl
follow_from-quantum_at node i (suc n) (q ∷ chain) (suc j) s =
    follow_from-quantum_at node (i + 1) n chain j s

-- With memory the node is found.
pub follow_from-found :
    (node : ℕ → Bool) (i n : ℕ) (chain : List Qset)
    → ((k : ℕ) → node k ≡ true)
    → ((follow_from node i n chain).0.0 ≡ true) × (n < length (follow_from node i n chain).0.1)
unfolding follow_from
follow_from-found node i zero [] ok = ground (arith, ok i)
follow_from-found node i zero (q ∷ chain) ok = ground arith
follow_from-found node i (suc n) [] ok =
    ground (arith, ok i, follow_from-found node (i + 1) n [] ok)
follow_from-found node i (suc n) (q ∷ chain) ok =
    ground (arith, follow_from-found node (i + 1) n chain ok)

pub put_quantum_lem :
    (chain : List Qset) (item s_pos : ℕ) (bytes : Quantum) (j s : ℕ)
    → item < length chain
    → quantum_at (put_quantum chain item s_pos bytes) j s
      ≡ (if item == j && s_pos == s then some bytes else quantum_at chain j s)
unfolding put_quantum quantum_at
put_quantum_lem [] item s_pos bytes j s lt = absurd (omega arith)
put_quantum_lem (q ∷ chain) zero s_pos bytes zero s lt = ground arith
put_quantum_lem (q ∷ chain) zero s_pos bytes (suc j) s lt = ground arith
put_quantum_lem (q ∷ chain) (suc item) s_pos bytes zero s lt = ground arith
put_quantum_lem (q ∷ chain) (suc item) s_pos bytes (suc j) s lt =
    ground (arith, put_quantum_lem chain item s_pos bytes j s (omega (arith, lt)))

-- A new array has no quantum, and there was none.
pub put_array_lem :
    (chain : List Qset) (item j s : ℕ)
    → lacks_array chain item ≡ true
    → (quantum_at (put_array chain item) j s ≡ quantum_at chain j s)
      × (length (put_array chain item) ≡ length chain)
unfolding put_array lacks_array quantum_at
put_array_lem [] item j s e = (refl, refl)
put_array_lem (q ∷ chain) zero zero s e = ground arith
put_array_lem (q ∷ chain) zero (suc j) s e = ground arith
put_array_lem (q ∷ chain) (suc item) zero s e = ground (arith, put_array_lem chain item zero s e)
put_array_lem (q ∷ chain) (suc item) (suc j) s e = ground (arith, put_array_lem chain item j s e)
