-- ===== src/Scull/Kept.antt =====
-- The memory of the chain of HW4-xmerge/Labs/lab9/lab09-examples/scull.c while it is followed and
-- written: what it holds then is what it held and what kmalloc gave.
use kernel_programming.Prelude.{
  ℕ, zero, suc, ◌+◌, ◌≤◌, ◌<◌, ◌≡◌, refl, arith, Bool, true, false, List, [], ◌∷◌, none, length,
  ◌∙◌, ◌==◌, ◌&&◌, not,
}
use kernel_programming.Scull.{
  Quantum, Qset, Block, node_at, array_at, quantum_in, follow_from, quantum_at,
}
use kernel_programming.Scull.Write.{put_quantum, put_array, lacks_array}
use kernel_programming.Scull.Chain.{follow_from-quantum_at, put_array_lem, put_quantum_lem}
use kernel_programming.Scull.Prepared.{with_quantum}
use kernel_programming.Scull.Freed.{freed, held}

-- No quantum is added behind the first `qset` entries of an array, and the chain holds what it held
-- and the blocks of the log.
pub record KeepsBlocks (qset : ℕ) (c c' : List Qset) (log : List Block) : Type 0 where
  pub fits : (k s : ℕ) → qset ≤ s → quantum_at c k s ≡ none → quantum_at c' k s ≡ none
  pub accounts : (b : Block) → held b c' ≡ held b c + freed b log

pub KeepsBlocks-refl : (qset : ℕ) (c : List Qset) → KeepsBlocks qset c c []
KeepsBlocks-refl qset c = record { fits = λ k s p e. e; accounts = λ b. omega arith }

pub KeepsBlocks-trans :
    {qset : ℕ} {a b c : List Qset} {l m n : List Block}
    → KeepsBlocks qset a b l
    → KeepsBlocks qset b c m
    → ((x : Block) → freed x n ≡ freed x l + freed x m)
    → KeepsBlocks qset a c n
KeepsBlocks-trans f g same = record {
  fits = λ k s p e. g.fits k s p (f.fits k s p e);
  accounts = λ b. omega (arith, f.accounts b, g.accounts b, same b);
}

pub follow_from-bound :
    (node : ℕ → Bool) (i n : ℕ) (c : List Qset)
    → (follow_from node i n c).0.0 ≡ true
    → n < length (follow_from node i n c).0.1
unfolding follow_from
follow_from-bound node i zero [] e = ground (arith, e)
follow_from-bound node i zero (q ∷ c) e = ground arith
follow_from-bound node i (suc n) [] e = ground (arith, e, follow_from-bound node (i + 1) n [])
follow_from-bound node i (suc n) (q ∷ c) e = omega (arith, follow_from-bound node (i + 1) n c e)

lacks-follow_from :
    (node : ℕ → Bool) (i n : ℕ) (c : List Qset) (k : ℕ)
    → lacks_array (follow_from node i n c).0.1 k ≡ lacks_array c k
unfolding follow_from lacks_array
lacks-follow_from node i zero [] zero = ground arith
lacks-follow_from node i zero [] (suc k) = ground arith
lacks-follow_from node i zero (q ∷ c) k = refl
lacks-follow_from node i (suc n) [] zero = ground arith
lacks-follow_from node i (suc n) [] (suc k) = ground (arith, lacks-follow_from node (i + 1) n [] k)
lacks-follow_from node i (suc n) (q ∷ c) zero = refl
lacks-follow_from node i (suc n) (q ∷ c) (suc k) = lacks-follow_from node (i + 1) n c k

-- Nodes alone are given, from the index on where the loop stands.
follow_from-others :
    (node : ℕ → Bool) (i n : ℕ) (c : List Qset) (j s : ℕ)
    → (freed (array_at j) (follow_from node i n c).1 ≡ 0)
      × (freed (quantum_in j s) (follow_from node i n c).1 ≡ 0)
      × (j < i → freed (node_at j) (follow_from node i n c).1 ≡ 0)
unfolding follow_from
follow_from-others node i zero [] j s = ground arith
follow_from-others node i zero (q ∷ c) j s = ground arith
follow_from-others node i (suc n) [] j s = ground (arith, follow_from-others node (i + 1) n [] j s)
follow_from-others node i (suc n) (q ∷ c) j s =
    ground (arith, follow_from-others node (i + 1) n c j s)

-- A node is given where the chain grows.
follow_from-nodes :
    (node : ℕ → Bool) (i n : ℕ) (c : List Qset) (j k : ℕ)
    → j ≡ i + k
    → held (node_at k) (follow_from node i n c).0.1
      ≡ held (node_at k) c + freed (node_at j) (follow_from node i n c).1
unfolding follow_from
follow_from-nodes node i zero [] j k e = ground (arith, e)
follow_from-nodes node i zero (q ∷ c) j k e = omega arith
follow_from-nodes node i (suc n) [] j zero e =
    ground (arith, e, follow_from-others node (i + 1) n [] j 0)
follow_from-nodes node i (suc n) [] j (suc k) e =
    ground (arith, e, follow_from-nodes node (i + 1) n [] j k (omega arith))
follow_from-nodes node i (suc n) (q ∷ c) j zero e =
    ground (arith, e, follow_from-others node (i + 1) n c j 0)
follow_from-nodes node i (suc n) (q ∷ c) j (suc k) e =
    ground (arith, e, follow_from-nodes node (i + 1) n c j k (omega arith))

pub follow_from-KeepsBlocks :
    (node : ℕ → Bool) (n qset : ℕ) (c : List Qset)
    → KeepsBlocks qset c (follow_from node 0 n c).0.1 (follow_from node 0 n c).1
follow_from-KeepsBlocks node n qset c = record {
  fits = λ k s p e. follow_from-quantum_at node 0 n c k s ∙ e;
  accounts = λ b. accounts b;
}
  where
    accounts :
        (b : Block)
        → held b (follow_from node 0 n c).0.1 ≡ held b c + freed b (follow_from node 0 n c).1
    accounts (node_at k) = follow_from-nodes node 0 n c k k (omega arith)
    accounts (array_at k) =
        ground (arith, lacks-follow_from node 0 n c k, follow_from-others node 0 n c k 0)
    accounts (quantum_in k s) =
        ground (arith, follow_from-quantum_at node 0 n c k s, follow_from-others node 0 n c k s)

pub lacks-put_array :
    (c : List Qset) (item k : ℕ)
    → item < length c
    → lacks_array (put_array c item) k ≡ (lacks_array c k && not (item == k))
unfolding put_array lacks_array
lacks-put_array [] item k lt = absurd (omega arith)
lacks-put_array (q ∷ c) zero zero lt = ground arith
lacks-put_array (q ∷ c) zero (suc k) lt = ground arith
lacks-put_array (q ∷ c) (suc item) zero lt = ground arith
lacks-put_array (q ∷ c) (suc item) (suc k) lt =
    ground (arith, lacks-put_array c item k (omega (arith, lt)))

pub put_array-KeepsBlocks :
    (qset item : ℕ) (c : List Qset)
    → item < length c
    → lacks_array c item ≡ true
    → KeepsBlocks qset c (put_array c item) (array_at item ∷ [])
put_array-KeepsBlocks qset item c lt lacks = record {
  fits = λ k s p e. (put_array_lem c item k s lacks).0 ∙ e;
  accounts = λ b. accounts b;
}
  where
    accounts : (b : Block) → held b (put_array c item) ≡ held b c + freed b (array_at item ∷ [])
    accounts (node_at k) = ground (arith, put_array_lem c item k 0 lacks)
    accounts (array_at k) = ground (arith, lacks-put_array c item k lt, lacks)
    accounts (quantum_in k s) = ground (arith, put_array_lem c item k s lacks)

lacks-put_quantum :
    (c : List Qset) (item s_pos k : ℕ) (bytes : Quantum)
    → lacks_array c item ≡ false
    → lacks_array (put_quantum c item s_pos bytes) k ≡ lacks_array c k
unfolding put_quantum lacks_array
lacks-put_quantum [] item s_pos k bytes e = refl
lacks-put_quantum (q ∷ c) zero s_pos zero bytes e = ground (arith, e)
lacks-put_quantum (q ∷ c) zero s_pos (suc k) bytes e = refl
lacks-put_quantum (q ∷ c) (suc item) s_pos zero bytes e = refl
lacks-put_quantum (q ∷ c) (suc item) s_pos (suc k) bytes e =
    lacks-put_quantum c item s_pos k bytes e

length-put_quantum :
    (c : List Qset) (item s_pos : ℕ) (bytes : Quantum)
    → length (put_quantum c item s_pos bytes) ≡ length c
unfolding put_quantum
length-put_quantum [] item s_pos bytes = refl
length-put_quantum (q ∷ c) zero s_pos bytes = refl
length-put_quantum (q ∷ c) (suc item) s_pos bytes =
    omega (arith, length-put_quantum c item s_pos bytes)

-- A quantum is given when there was none at its place.
pub put_quantum-KeepsBlocks :
    (qset item s_pos : ℕ) (bytes : Quantum) (c : List Qset)
    → s_pos < qset
    → item < length c
    → lacks_array c item ≡ false
    → KeepsBlocks qset c
        (put_quantum c item s_pos bytes)
        (with_quantum (quantum_at c item s_pos) [] (quantum_in item s_pos))
put_quantum-KeepsBlocks qset item s_pos bytes c small lt has = record {
  fits = λ k s p e. put_quantum_lem c item s_pos bytes k s lt ∙ ground (arith, e);
  accounts = λ b. accounts b;
}
  where
    accounts :
        (b : Block)
        → held b (put_quantum c item s_pos bytes)
          ≡ held b c + freed b (with_quantum (quantum_at c item s_pos) [] (quantum_in item s_pos))
    accounts (node_at k) = ground (arith, length-put_quantum c item s_pos bytes)
    accounts (array_at k) = ground (arith, lacks-put_quantum c item s_pos k bytes has)
    accounts (quantum_in k s) = ground (arith, put_quantum_lem c item s_pos bytes k s lt)
