-- ===== src/Scull/Refine.antt =====
-- The device of HW4-xmerge/Labs/lab9/lab09-examples/scull.c as a file of bytes.
use kernel_programming.Prelude.{
  ◌^◌, ◌*◌, ℕ, ◌+◌, ◌-◌, ◌/◌, ◌%◌, ◌<◌, ◌≤◌, ◌≡◌, refl, sym, arith, List, Option, none, some, max,
  ltb, leb, length, ◌==◌, ◌&&◌, if◌then◌else◌, ℕ_discrete,
}
use kernel_programming.Scull.{ScullDev, Quantum, Qset, place_of, quantum_at}
use kernel_programming.Scull.Write.{overlay, put_quantum}
use kernel_programming.Scull.Chain.{put_quantum_lem}
use kernel_programming.Scull.Offset.{InRange, place_of_lem, near_lem, same_quantum, same_entry}

-- The byte at a position, if its quantum is allocated.
abbrev pub entry_byte : Option Quantum → ℕ → Option ℕ
entry_byte none q_pos = none
entry_byte (some bytes) q_pos = some (bytes q_pos)

pub byte_at : ScullDev → ℕ → Option ℕ
byte_at dev j =
    let place = place_of dev j in
    entry_byte (quantum_at dev.chain place.item place.s_pos) place.q_pos

-- A file: its size, and the bytes that have been written.
pub record File : Type 0 where
  pub size : ℕ
  pub byte : ℕ → Option ℕ

-- A write of `n` bytes at a position.
abbrev pub file_write : File → ℕ → ℕ → Quantum → File
file_write file p n buf = record {
  size = max file.size (p + n);
  byte = λ j. if leb p j && ltb j (p + n) then some (buf (j - p)) else file.byte j;
}

-- The device has the size of the file and holds each byte that was written.
pub record IsHeld (file : File) (dev : ScullDev) : Type 0 where
  pub same_size : dev.size ≡ file.size
  pub held : (j b : ℕ) → InRange dev j → file.byte j ≡ some b → byte_at dev j ≡ some b

module _ (dev : ScullDev) (q_positive : 0 < dev.quantum)
    (narrow : dev.quantum * dev.qset < 2 ^ 31) where
  pub byte_at_lem :
      (j : ℕ)
      → InRange dev j
      → byte_at dev j
        ≡ entry_byte
            (quantum_at dev.chain (j / dev.quantum / dev.qset) (j / dev.quantum % dev.qset))
            (j % dev.quantum)
  unfolding byte_at
  byte_at_lem j range = rw (place_of_lem dev j q_positive narrow range) refl

pub byte_at-size : (dev : ScullDev) (n j : ℕ) → byte_at (record dev { size = n }) j ≡ byte_at dev j
unfolding byte_at place_of
byte_at-size dev n j = refl

-- A quantum that is written at a position, in the terms of the bytes.
pub overlay_lem :
    (dev : ScullDev)
    → 0 < dev.quantum
    → dev.quantum * dev.qset < 2 ^ 31
    → (chain : List Qset) (bytes buf : Quantum) (p n : ℕ)
    → p / dev.quantum / dev.qset < length chain
    → n ≤ dev.quantum - p % dev.quantum
    → (j : ℕ) → InRange dev j
    → byte_at
        (record dev {
          chain =
              put_quantum chain
                (p / dev.quantum / dev.qset)
                (p / dev.quantum % dev.qset)
                (overlay bytes (p % dev.quantum) n buf);
        })
        j
      ≡ (if leb p j && ltb j (p + n)
          then some (buf (j - p))
          else if p / dev.quantum == j / dev.quantum
          then some (bytes (j % dev.quantum))
          else byte_at (record dev { chain = chain }) j)
overlay_lem dev positive narrow chain bytes buf p n long fits j range =
    rw
      (
        byte_at_lem (record dev { chain = chain }) positive narrow j range,
        byte_at_lem
            (record dev {
              chain =
                  put_quantum chain (p / dev.quantum / dev.qset) (p / dev.quantum % dev.qset)
                    (overlay bytes (p % dev.quantum) n buf);
            })
            positive narrow j range,
        put_quantum_lem chain _ _ (overlay bytes (p % dev.quantum) n buf)
            (j / dev.quantum / dev.qset) (j / dev.quantum % dev.qset) long,
      )
      (elim (ℕ_discrete (p / q) (j / q)) [
        | yes e ↦ rw e (ground (arith, same_quantum p q s positive j (sym e)))
        | no ne ↦ ground (
          arith,
          λ (a : p / q / s ≡ j / q / s) (b : p / q % s ≡ j / q % s). ne (same_entry q s _ _ a b),
          λ (lo : p ≤ j) (hi : j < p + n). ne (sym (near_lem p q s positive j n lo hi fits).0),
        )
      ])
  where
    q : ℕ
    q = dev.quantum

    s : ℕ
    s = dev.qset
