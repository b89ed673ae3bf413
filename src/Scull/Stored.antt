-- ===== src/Scull/Stored.antt =====
-- `scull_write` of HW4-xmerge/Labs/lab9/lab09-examples/scull.c writes the file.
use kernel_programming.Prelude.{
  ◌^◌, ◌*◌, ℕ, ◌+◌, ◌-◌, ◌/◌, ◌%◌, ◌<◌, ◌≡◌, refl, sym, ap, arith, ◌∙◌, List, Option, none, some,
  min, length,
}
use kernel_programming.Prelude.Int.{pos}
use kernel_programming.Scull.{
  Block, quantum_in, ScullDev, Quantum, Qset, Answers, Ret, place_of, quantum_at,
}
use kernel_programming.Scull.Write.{write_quantum, write_at, scull_write}
use kernel_programming.Scull.Offset.{InRange, place_of_lem, has_itemsize_lem}
use kernel_programming.Scull.Refine.{
  entry_byte, byte_at, byte_at_lem, File, file_write, IsHeld, overlay_lem, byte_at-size,
}
use kernel_programming.Scull.Prepared.{
  with_quantum, given, IsGood, prepared, prepared-quantum_at, length-prepared, or_fresh,
  write_at_lem,
}

-- How many bytes a write stores: no more than the rest of the quantum.
abbrev pub stored : ScullDev → ℕ → ℕ → ℕ
stored dev count p = min count (dev.quantum - p % dev.quantum)

module _ (dev : ScullDev) (count : ℕ) (buf : Quantum) (p : ℕ) (q_positive : 0 < dev.quantum)
    (narrow : dev.quantum * dev.qset < 2 ^ 31) (range : InRange dev p) where
  module _ (chain : List Qset) (bytes : Quantum) (long : p / dev.quantum / dev.qset < length chain)
      (same : (j : ℕ)
        → InRange dev j
        → (b : ℕ) → byte_at dev j ≡ some b
        → (p / dev.quantum ≡ j / dev.quantum → bytes (j % dev.quantum) ≡ b)
          × (byte_at (record dev { chain = chain }) j ≡ some b)) where
    write_quantum-IsHeld :
        (answers : Answers) (file : File) (log : List Block)
        → answers.uncopied ≡ 0
        → IsHeld file dev
        → let r =
            write_quantum answers
              (record dev { chain = chain })
              (place_of dev p)
              bytes
              log
              count
              buf
              p in
          (r.ret ≡ pos (stored dev count p))
          × (r.f_pos ≡ p + stored dev count p)
          × IsHeld (file_write file p (stored dev count p) buf) r.dev
          × (r.dev.quantum ≡ dev.quantum)
          × (r.dev.qset ≡ dev.qset)
    unfolding write_quantum
    write_quantum-IsHeld answers file log all h =
        rw (all, place_of_lem dev p q_positive narrow range)
          (
            refl,
            refl,
            record {
              same_size = ground (arith, h.same_size);
              held = λ j b r e.
                  byte_at-size _ _ j
                  ∙ overlay_lem dev q_positive narrow chain bytes buf p (stored dev count p) long
                      (omega arith) j r
                  ∙ ground (arith, e, h.held j b r, same j r b);
            },
            refl,
            refl,
          )

  abbrev chain_of : Answers → List Qset
  chain_of answers = prepared answers dev.chain (p / dev.quantum / dev.qset)

  abbrev bytes_of : Answers → Quantum
  bytes_of answers =
      or_fresh
        (quantum_at (chain_of answers) (p / dev.quantum / dev.qset) (p / dev.quantum % dev.qset))
        answers.fresh

  abbrev log_of : Answers → List Block
  log_of answers =
      let item = p / dev.quantum / dev.qset in
      let s_pos = p / dev.quantum % dev.qset in
      with_quantum (quantum_at (chain_of answers) item s_pos) (given answers dev.chain item)
        (quantum_in item s_pos)

  prepared-byte_at :
      (answers : Answers) (j : ℕ)
      → InRange dev j
      → byte_at (record dev { chain = chain_of answers }) j ≡ byte_at dev j
  prepared-byte_at answers j r =
      byte_at_lem (record dev { chain = chain_of answers }) q_positive narrow j r
      ∙ ap (λ o. entry_byte o (j % dev.quantum))
          (prepared-quantum_at answers dev.chain (p / dev.quantum / dev.qset)
            (j / dev.quantum / dev.qset) (j / dev.quantum % dev.qset))
      ∙ sym (byte_at_lem dev q_positive narrow j r)

  or_fresh-byte :
      (o : Option Quantum) (fresh : Quantum) (k b : ℕ)
      → entry_byte o k ≡ some b
      → or_fresh o fresh k ≡ b
  or_fresh-byte none fresh k b e = absurd (ground arith)
  or_fresh-byte (some bytes) fresh k b e = ground arith

  bytes_of-same :
      (answers : Answers) (j b : ℕ)
      → InRange dev j
      → byte_at dev j ≡ some b
      → p / dev.quantum ≡ j / dev.quantum
      → bytes_of answers (j % dev.quantum) ≡ b
  bytes_of-same answers j b r e same = or_fresh-byte _ answers.fresh (j % dev.quantum) b (
      ap
        (λ x.
          entry_byte (quantum_at (chain_of answers) (x / dev.qset) (x % dev.qset))
            (j % dev.quantum))
        same
      ∙ sym (byte_at_lem (record dev { chain = chain_of answers }) q_positive narrow j r)
      ∙ prepared-byte_at answers j r
      ∙ e)

  written_lem :
      (answers : Answers)
      → IsGood answers
      → write_at answers dev count buf p
        ≡ write_quantum answers
            (record dev { chain = chain_of answers })
            (place_of dev p)
            (bytes_of answers)
            (log_of answers)
            count
            buf
            p
  written_lem answers good =
      write_at_lem answers dev count buf p good
      ∙ ap
          (λ place.
            let chain = prepared answers dev.chain place.item in
            write_quantum answers (record dev { chain = chain }) (place_of dev p)
              (or_fresh (quantum_at chain place.item place.s_pos) answers.fresh)
              (with_quantum (quantum_at chain place.item place.s_pos)
                (given answers dev.chain place.item) (quantum_in place.item place.s_pos))
              count buf p)
          (place_of_lem dev p q_positive narrow range)

  pub scull_write_lem :
      (answers : Answers)
      → 0 < dev.qset
      → scull_write answers dev count buf p ≡ some (write_at answers dev count buf p)
  unfolding scull_write
  scull_write_lem answers s_positive = rw (has_itemsize_lem dev q_positive s_positive narrow) refl

  -- Suppose the device, with quanta and sets that are not empty and whose product an int holds,
  -- holds a file, the index of the node of the position is in the range of an int, and the kernel
  -- has memory and copies everything. A write then returns the count, cut to what is left of the
  -- quantum, moves the position by as much, and leaves a device that holds the file with these
  -- bytes written: none of the other bytes is lost, and the sizes of quanta and sets stay.
  pub scull_write-IsHeld :
      (answers : Answers) (file : File)
      → 0 < dev.qset
      → IsGood answers
      → IsHeld file dev
      → (r : Ret) × (scull_write answers dev count buf p ≡ some r)
        × (r.ret ≡ pos (stored dev count p))
        × (r.f_pos ≡ p + stored dev count p)
        × IsHeld (file_write file p (stored dev count p) buf) r.dev
        × (r.dev.quantum ≡ dev.quantum)
        × (r.dev.qset ≡ dev.qset)
  scull_write-IsHeld answers file s_positive good h =
      let (ret, moved, held, same_quantum, same_qset) =
        write_quantum-IsHeld (chain_of answers) (bytes_of answers)
          (length-prepared answers dev.chain (p / dev.quantum / dev.qset) good)
          (λ j r b e. (bytes_of-same answers j b r e, prepared-byte_at answers j r ∙ e)) answers
          file (log_of answers) good.copied h in
      (
        _,
        scull_write_lem answers s_positive ∙ ap some (written_lem answers good),
        ret,
        moved,
        held,
        same_quantum,
        same_qset,
      )
