-- ===== src/Scull/Write.antt =====
-- `scull_write` of HW4-xmerge/Labs/lab9/lab09-examples/scull.c.
use kernel_programming.Prelude.{
  ◌++◌, ℕ, zero, suc, ◌+◌, ◌-◌, Bool, true, false, not, List, [], ◌∷◌, Option, none, some, ltb, leb,
  ◌==◌, ◌&&◌, if◌then◌else◌, min,
}
use kernel_programming.Prelude.Int.{pos}
use kernel_programming.Scull.{
  Block, array_at, quantum_in, Quantum, Qset, ScullDev, Answers, Ret, Place, enomem, efault,
  follow_from, scull_follow, place_of, quantum_at, has_itemsize,
}

-- The bytes `from` to `from + n` of a quantum replaced by those of the user.
abbrev pub overlay : Quantum → ℕ → ℕ → Quantum → Quantum
overlay bytes from n buf j = if leb from j && ltb j (from + n) then buf (j - from) else bytes j

-- The array with one entry changed.
abbrev pub set_entry : (ℕ → Option Quantum) → ℕ → Quantum → ℕ → Option Quantum
set_entry a s_pos bytes i = if s_pos == i then some bytes else a i

-- The chain with the quantum at a place changed; an array that is NULL is a new one, of NULLs.
unfoldable pub put_quantum : List Qset → ℕ → ℕ → Quantum → List Qset
put_quantum [] item s_pos bytes = []
put_quantum (q ∷ chain) zero s_pos bytes =
    record {
      data_of = some (set_entry (elim q.data_of [ none ↦ λ i. none | some a ↦ a ]) s_pos bytes);
    }
    ∷ chain
put_quantum (q ∷ chain) (suc item) s_pos bytes = q ∷ put_quantum chain item s_pos bytes

-- The chain with an array at a node, all of its entries NULL.
unfoldable pub put_array : List Qset → ℕ → List Qset
put_array [] item = []
put_array (q ∷ chain) zero = record { data_of = some (λ i. none) } ∷ chain
put_array (q ∷ chain) (suc item) = q ∷ put_array chain item

-- `!dptr->data` of the node at an index
unfoldable pub lacks_array : List Qset → ℕ → Bool
lacks_array [] item = true
lacks_array (q ∷ chain) zero = elim q.data_of [ none ↦ true | some a ↦ false ]
lacks_array (q ∷ chain) (suc item) = lacks_array chain item

-- `scull_write` from the quantum on: it is there, or is allocated. `log` is what was allocated.
unfoldable pub write_quantum :
    Answers → ScullDev → Place → Quantum → List Block → ℕ → Quantum → ℕ → Ret
unfolding put_quantum
write_quantum answers dev place bytes log count buf f_pos =
    let count' = min count (dev.quantum - place.q_pos) in
    let put =
      λ (n : ℕ). put_quantum dev.chain place.item place.s_pos (overlay bytes place.q_pos n buf) in
    let f_pos' = f_pos + count' in
    if not (answers.uncopied == 0)
    then record {
      ret = efault;
      dev = record dev { chain = put (count' - answers.uncopied) };
      f_pos = f_pos;
      out = [];
      kmallocs = log;
    }
    else record {
      ret = pos count';
      dev = record dev {
        chain = put count';
        size = if ltb dev.size f_pos' then f_pos' else dev.size;
      };
      f_pos = f_pos';
      out = [];
      kmallocs = log;
    }

-- A failed allocation.
abbrev pub out_of_memory : ScullDev → List Block → ℕ → Ret
out_of_memory dev log f_pos = record {
  ret = enomem;
  dev = dev;
  f_pos = f_pos;
  out = [];
  kmallocs = log;
}

unfoldable pub write_at : Answers → ScullDev → ℕ → Quantum → ℕ → Ret
unfolding follow_from place_of quantum_at put_array lacks_array write_quantum
write_at answers dev count buf f_pos =
    let place = place_of dev f_pos in
    let ((found, chain), nodes) = scull_follow answers dev.chain place.item in
    let lacks = lacks_array chain place.item in
    let chain' = if lacks then put_array chain place.item else chain in
    let log = if lacks then nodes ++ array_at place.item ∷ [] else nodes in
    let dev' = record dev { chain = chain' } in
    if not found
    then out_of_memory (record dev { chain = chain }) nodes f_pos
    else if lacks && not answers.array
    then out_of_memory (record dev { chain = chain }) nodes f_pos
    else elim (quantum_at chain' place.item place.s_pos) [
      | none ↦
          if not answers.quantum_ok
          then out_of_memory dev' log f_pos
          else write_quantum answers dev' place answers.fresh
              (log ++ quantum_in place.item place.s_pos ∷ []) count buf f_pos
      | some bytes ↦ write_quantum answers dev' place bytes log count buf f_pos
    ]

-- The bytes of the user are a function of the offset.
unfoldable pub scull_write : Answers → ScullDev → ℕ → Quantum → ℕ → Option Ret
unfolding write_at
scull_write answers dev count buf f_pos =
    if not (has_itemsize dev) then none else some (write_at answers dev count buf f_pos)
