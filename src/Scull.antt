-- ===== src/Scull.antt =====
-- HW4-xmerge/Labs/lab9/lab09-examples/scull.c, the memory device. The chain of `struct scull_qset`
-- is the list of its nodes, `void **data` a function from the index to the quantum, which is NULL
-- or the bytes of a kmalloc. What kmalloc and the copies to and from the user answer in a call is
-- the record `Answers`. A division by zero is `none`. The product `quantum * qset` is an int and
-- wraps; a negative one is `none` too, and so is outside the model. printk is left out.
mod Tests
pub mod Write
pub mod Setup
pub mod Chain
pub mod Offset
pub mod Refine
pub mod Prepared
pub mod Stored
pub mod Loaded
pub mod Trip
pub mod NoMemory
pub mod Freed
pub mod Kept
pub mod Blocks
pub mod Lifetime
use kernel_programming.Prelude.{
  ℕ, zero, suc, ◌+◌, ◌-◌, ◌*◌, ◌/◌, ◌%◌, ◌^◌, Bool, true, false, not, List, [], ◌∷◌, Option, none,
  some, ltb, leb, ◌==◌, ◌&&◌, ◌++◌, if◌then◌else◌, min, ◌>>=◌,
}
use kernel_programming.Prelude.Int.{ℤ, pos, negsuc}

abbrev pub Quantum : Type 0
Quantum = ℕ → ℕ

pub record Qset : Type 0 where
  pub data_of : Option (ℕ → Option Quantum)

pub record ScullDev : Type 0 where
  pub chain : List Qset
  pub quantum : ℕ
  pub qset : ℕ
  pub size : ℕ

-- The module's parameters.
pub record Params : Type 0 where
  pub scull_quantum : ℕ
  pub scull_qset : ℕ

-- What the kernel answers in one call: whether the node at an index, the array and the quantum are
-- allocated, if they are asked for; what the new quantum holds; how many bytes are not copied.
pub record Answers : Type 0 where
  pub node : ℕ → Bool
  pub array : Bool
  pub quantum_ok : Bool
  pub fresh : Quantum
  pub uncopied : ℕ

-- A block of memory, by its place: a node, its array, or a quantum of the array.
pub data Block : Type 0 where
  node_at array_at : ℕ → Block
  quantum_in : ℕ → ℕ → Block

-- What a call returns, the device and the position that it leaves, the bytes handed out, and the
-- blocks that kmalloc gave in the call, each with the place that it was put at.
pub record Ret : Type 0 where
  pub ret : ℤ
  pub dev : ScullDev
  pub f_pos : ℕ
  pub out : List ℕ
  pub kmallocs : List Block

abbrev pub enomem : ℤ
enomem = negsuc 11

abbrev pub efault : ℤ
efault = negsuc 13

abbrev pub empty_node : Qset
empty_node = record { data_of = none }

-- What `scull_trim` frees, in order. The entries of the array of the node `k` from `i` on, `n`
-- left; a kfree of NULL does nothing.
unfoldable pub free_entries : (ℕ → Option Quantum) → ℕ → ℕ → ℕ → List Block
free_entries a k i zero = []
free_entries a k i (suc n) =
    let rest = free_entries a k (i + 1) n in
    elim (a i) [ none ↦ rest | some _ ↦ quantum_in k i ∷ rest ]

unfoldable pub free_array : ℕ → ℕ → Option (ℕ → Option Quantum) → List Block
unfolding free_entries
free_array qset k none = []
free_array qset k (some a) = free_entries a k 0 qset ++ array_at k ∷ []

-- The nodes from the one at `k` on.
unfoldable pub free_chain : ℕ → ℕ → List Qset → List Block
unfolding free_array
free_chain qset k [] = []
free_chain qset k (q ∷ chain) =
    free_array qset k q.data_of ++ node_at k ∷ free_chain qset (k + 1) chain

unfoldable pub trim_frees : ScullDev → List Block
unfolding free_chain
trim_frees dev = free_chain dev.qset 0 dev.chain

-- The device that `scull_trim` leaves.
unfoldable pub scull_trim : Params → ScullDev → ScullDev
scull_trim params dev = record {
  chain = [];
  quantum = params.scull_quantum;
  qset = params.scull_qset;
  size = 0;
}

-- O_ACCMODE is 3 and O_WRONLY is 1.
unfoldable pub scull_open : Params → ℕ → ScullDev → ScullDev
unfolding scull_trim
scull_open params f_flags dev = if f_flags % 4 == 1 then scull_trim params dev else dev

-- The loop of `scull_follow` from the node at `i` on, `n` steps left: whether the node is there, the
-- chain, and the nodes allocated.
unfoldable pub follow_from : (ℕ → Bool) → ℕ → ℕ → List Qset → (Bool × List Qset) × List Block
follow_from node i zero [] =
    if node i then ((true, empty_node ∷ []), node_at i ∷ []) else ((false, []), [])
follow_from node i zero (q ∷ chain) = ((true, q ∷ chain), [])
follow_from node i (suc n) [] =
    let ((found, rest), log) = follow_from node (i + 1) n [] in
    if node i then ((found, empty_node ∷ rest), node_at i ∷ log) else ((false, []), [])
follow_from node i (suc n) (q ∷ chain) =
    let ((found, rest), log) = follow_from node (i + 1) n chain in ((found, q ∷ rest), log)

abbrev pub scull_follow : Answers → List Qset → ℕ → (Bool × List Qset) × List Block
scull_follow answers chain n = follow_from answers.node 0 n chain

-- `itemsize`, an int: the product wraps.
abbrev pub itemsize_of : ScullDev → ℕ
itemsize_of dev = dev.quantum * dev.qset % 2 ^ 32

-- It is positive.
abbrev pub has_itemsize : ScullDev → Bool
has_itemsize dev = not (itemsize_of dev == 0) && ltb (itemsize_of dev) (2 ^ 31)

-- `item`, an int, `s_pos` and `q_pos` of a position.
pub record Place : Type 0 where
  pub item : ℕ
  pub s_pos : ℕ
  pub q_pos : ℕ

unfoldable pub place_of : ScullDev → ℕ → Place
place_of dev f_pos =
    let itemsize = itemsize_of dev in
    let rest = f_pos % itemsize in
    record {
      item = f_pos / itemsize % 2 ^ 32;
      s_pos = rest / dev.quantum;
      q_pos = rest % dev.quantum;
    }

-- `dptr->data[s_pos]` of the node at an index, NULL also where something before it is.
unfoldable pub quantum_at : List Qset → ℕ → ℕ → Option Quantum
quantum_at [] item s_pos = none
quantum_at (q ∷ chain) zero s_pos = elim q.data_of [ none ↦ none | some a ↦ a s_pos ]
quantum_at (q ∷ chain) (suc item) s_pos = quantum_at chain item s_pos

-- The bytes `from` to `from + n` of a quantum.
abbrev pub bytes_from : Quantum → ℕ → ℕ → List ℕ
bytes_from bytes from zero = []
bytes_from bytes from (suc n) = bytes from ∷ bytes_from bytes (from + 1) n

-- `scull_read`, after the test of the end, with the count cut to the size.
unfoldable pub read_at : Answers → ScullDev → ℕ → ℕ → Ret
unfolding follow_from place_of quantum_at
read_at answers dev count f_pos =
    let place = place_of dev f_pos in
    let ((found, chain), nodes) = scull_follow answers dev.chain place.item in
    let dev' = record dev { chain = chain } in
    let count' = min count (dev.quantum - place.q_pos) in
    elim (quantum_at chain place.item place.s_pos) [
      | none ↦ record { ret = pos 0; dev = dev'; f_pos = f_pos; out = []; kmallocs = nodes }
      | some bytes ↦
          if not found
          then record { ret = pos 0; dev = dev'; f_pos = f_pos; out = []; kmallocs = nodes }
          else if not (answers.uncopied == 0)
          then record {
            ret = efault;
            dev = dev';
            f_pos = f_pos;
            out = bytes_from bytes place.q_pos (count' - answers.uncopied);
            kmallocs = nodes;
          }
          else record {
            ret = pos count';
            dev = dev';
            f_pos = f_pos + count';
            out = bytes_from bytes place.q_pos count';
            kmallocs = nodes;
          }
    ]

unfoldable pub scull_read : Answers → ScullDev → ℕ → ℕ → Option Ret
unfolding read_at
scull_read answers dev count f_pos =
    let count' = if ltb dev.size ((f_pos + count) % 2 ^ 64) then dev.size - f_pos else count in
    if leb dev.size f_pos
    then some (record { ret = pos 0; dev = dev; f_pos = f_pos; out = []; kmallocs = [] })
    else if not (has_itemsize dev)
    then none
    else some (read_at answers dev count' f_pos)
