-- ===== src/Scull/Tests.antt =====
-- Runs of the device of scull.c with small quanta.
use kernel_programming.Scull.Offset.{InRange}
use kernel_programming.Prelude.{
  ℕ, ◌<◌, ◌≡◌, refl, arith, true, false, none, some, [], ◌∷◌, if◌then◌else◌, ltb, ◌/◌, ◌∙◌, ◌≤◌,
}
use kernel_programming.Prelude.Int.{pos}
use kernel_programming.Scull.{
  trim_frees, node_at, array_at, quantum_in, ScullDev, Quantum, Answers, Ret, enomem, scull_read,
  empty_node, quantum_at,
}
use kernel_programming.Scull.Freed.{freed}
use kernel_programming.Scull.Lifetime.{writes, calls, loaded, Reach-trim_frees}
use kernel_programming.Scull.Write.{set_entry, overlay, scull_write}
use kernel_programming.Scull.Refine.{File, file_write, IsHeld, byte_at, byte_at_lem}
use kernel_programming.Scull.Prepared.{IsGood}
use kernel_programming.Scull.Stored.{scull_write-IsHeld}
use kernel_programming.Scull.Loaded.{scull_read-IsHeld}
use kernel_programming.Scull.NoMemory.{scull_write-enomem}
use kernel_programming.Scull.Trip.{scull_write-scull_read}

-- Quanta of 4 bytes in sets of 3.
abbrev small : ScullDev
small = record { chain = []; quantum = 4; qset = 3; size = 0 }

abbrev memory : Answers
memory = record { node = λ k. true; array = true; quantum_ok = true; fresh = λ i. 99; uncopied = 0 }

memory-IsGood : IsGood memory
memory-IsGood = record { nodes = λ k. refl; arrays = refl; quanta = refl; copied = refl }

abbrev text : Quantum
text i = 10

abbrev nothing : File
nothing = record { size = 0; byte = λ j. none }

small-IsHeld : IsHeld nothing small
small-IsHeld = record { same_size = refl; held = λ j b r e. absurd (ground arith) }

-- Five bytes at the position 14, the offset 2 of the first quantum of the second node: two fit.
scull_write-IsHeld_example :
    (r : Ret) × (scull_write memory small 5 text 14 ≡ some r)
    × (r.ret ≡ pos 2)
    × (r.f_pos ≡ 16)
    × IsHeld (file_write nothing 14 2 text) r.dev
    × (r.dev.quantum ≡ 4)
    × (r.dev.qset ≡ 3)
scull_write-IsHeld_example =
    scull_write-IsHeld small 5 text 14 (omega arith) (omega arith) (omega arith) memory nothing
      (omega arith) memory-IsGood small-IsHeld

-- A device whose first quantum holds the byte 7 everywhere.
abbrev full : ScullDev
full = record {
  chain = record { data_of = some (λ i. some (λ k. 7)) } ∷ [];
  quantum = 4;
  qset = 3;
  size = 12;
}

abbrev sevens : File
sevens = record { size = 12; byte = λ j. if ltb j 12 then some 7 else none }

scull_write-scull_read_example :
    (r r' : Ret) × (scull_write memory small 5 text 14 ≡ some r)
    × (scull_read memory r.dev 5 14 ≡ some r')
    × (r'.ret ≡ r.ret)
    × (r'.out ≡ 10 ∷ 10 ∷ [])
scull_write-scull_read_example =
    scull_write-scull_read small 5 text 14 memory memory (omega arith) (omega arith) (omega arith)
      (omega arith) memory-IsGood memory-IsGood (omega arith) (omega arith)

abbrev no_quantum : Answers
no_quantum = record memory { quantum_ok = false }

-- Two nodes and an array have been added.
abbrev short : Ret
short = record {
  ret = enomem;
  dev = record small { chain = empty_node ∷ record { data_of = some (λ i. none) } ∷ [] };
  f_pos = 14;
  out = [];
  kmallocs = node_at 0 ∷ node_at 1 ∷ array_at 1 ∷ [];
}

short_run : scull_write no_quantum small 5 text 14 ≡ some short
unfolding scull_write
short_run = refl

scull_write-enomem_example : IsHeld nothing short.dev × (short.f_pos ≡ 14)
scull_write-enomem_example =
    scull_write-enomem small (omega arith) (omega arith) nothing small-IsHeld no_quantum 5 text 14
      short short_run refl

full_lem : (j : ℕ) → InRange full j → j < 12 → byte_at full j ≡ some 7
unfolding quantum_at
full_lem j range lt =
    let node : j / 4 / 3 ≡ 0 = omega arith in
    byte_at_lem full (omega arith) (omega arith) j range ∙ rw node refl

full-IsHeld : IsHeld sevens full
full-IsHeld = record { same_size = refl; held = λ j b range e. ground (arith, e, full_lem j range) }

scull_read-IsHeld_example :
    (r : Ret) × (scull_read memory full 9 2 ≡ some r)
    × (r.ret ≡ pos 2)
    × (r.f_pos ≡ 4)
    × (r.out ≡ 7 ∷ 7 ∷ [])
    × IsHeld sevens r.dev
scull_read-IsHeld_example =
    scull_read-IsHeld full 9 2 (omega arith) (omega arith) (omega arith) memory sevens (λ k. 7)
      (omega arith) memory-IsGood full-IsHeld (omega arith) (omega arith) (omega arith)
      (λ k lt. ground arith)

-- The device after a write of two bytes to the second node.
abbrev two_written : Ret
two_written = record {
  ret = pos 2;
  dev = record small {
    chain =
        empty_node
        ∷ record { data_of = some (set_entry (λ i. none) 0 (overlay (λ i. 99) 2 2 text)) }
        ∷ [];
    size = 16;
  };
  f_pos = 16;
  out = [];
  kmallocs = node_at 0 ∷ node_at 1 ∷ array_at 1 ∷ quantum_in 1 0 ∷ [];
}

write_run : scull_write memory small 5 text 14 ≡ some two_written
unfolding scull_write
write_run = refl

frees_run : trim_frees two_written.dev ≡ node_at 0 ∷ quantum_in 1 0 ∷ array_at 1 ∷ node_at 1 ∷ []
unfolding trim_frees
frees_run = refl

Reach-trim_frees_example :
    (freed (quantum_in 1 0) (trim_frees two_written.dev)
      ≡ freed (quantum_in 1 0) two_written.kmallocs)
    × (freed (quantum_in 1 0) two_written.kmallocs ≤ 1)
Reach-trim_frees_example =
    Reach-trim_frees small two_written.dev two_written.kmallocs (quantum_in 1 0) refl
      (calls loaded (writes memory small 5 text 14 two_written write_run))
