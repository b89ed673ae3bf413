-- ===== src/Scull/Trip.antt =====
-- What `scull_write` of HW4-xmerge/Labs/lab9/lab09-examples/scull.c stores, `scull_read` finds.
use native.Mathlib.Nat.{mod-lt}
use kernel_programming.Prelude.{
  ◌*◌, ℕ, ◌+◌, ◌^◌, ◌<◌, ◌≡◌, refl, sym, ap, arith, ◌∙◌, none, some, max,
}
use kernel_programming.Prelude.Int.{pos}
use kernel_programming.Scull.{ScullDev, Quantum, Answers, Ret, bytes_from, scull_read}
use kernel_programming.Scull.Write.{scull_write}
use kernel_programming.Scull.Offset.{InRange}
use kernel_programming.Scull.Refine.{File, file_write, IsHeld}
use kernel_programming.Scull.Prepared.{IsGood}
use kernel_programming.Scull.Stored.{stored, scull_write-IsHeld}
use kernel_programming.Scull.Loaded.{loaded, scull_read-IsHeld}

-- The file of which only the size is known.
abbrev unknown : ScullDev → File
unknown dev = record { size = dev.size; byte = λ j. none }

read_back :
    (dev dev' : ScullDev) (count : ℕ) (buf : Quantum) (p : ℕ) (reads : Answers)
    → 0 < dev.quantum
    → 0 < dev.qset
    → dev.quantum * dev.qset < 2 ^ 31
    → InRange dev p
    → IsGood reads
    → 0 < count
    → p + count < 2 ^ 64
    → IsHeld (file_write (unknown dev) p (stored dev count p) buf) dev'
    → dev'.quantum ≡ dev.quantum
    → dev'.qset ≡ dev.qset
    → (r' : Ret) × (scull_read reads dev' count p ≡ some r')
      × (r'.ret ≡ pos (stored dev count p))
      × (r'.out ≡ bytes_from buf 0 (stored dev count p))
read_back dev dev' count buf p reads q s narrow range good c small held quantum qset =
    let n = stored dev count p in
    let size : dev'.size ≡ max dev.size (p + n) = held.same_size in
    let same : loaded dev' count p ≡ n = rw (quantum, size) (omega arith) in
    let (r', done, ret, moved, out, held') =
      scull_read-IsHeld dev' count p (rw quantum q) (rw (quantum, qset) narrow)
        (rw (quantum, qset) range) reads (file_write (unknown dev) p n buf) buf (rw qset s) good
        held (omega (arith, size, mod-lt p q)) small c (λ k lt. ground (arith, same)) in
    (r', done, ret ∙ ap pos same, out ∙ ap (bytes_from buf 0) same)

-- On a device with quanta and sets that are not empty and whose product an int holds, at a position
-- the index of whose node is in the range of an int, after a write that the kernel has memory for
-- and copies, a read of as many bytes, at least one and ending below 2^64, at the same position
-- returns the same count and hands out the bytes that were written, whatever the device held
-- before, and where ever the write was cut.
pub scull_write-scull_read :
    (dev : ScullDev) (count : ℕ) (buf : Quantum) (p : ℕ) (writes reads : Answers)
    → 0 < dev.quantum
    → 0 < dev.qset
    → dev.quantum * dev.qset < 2 ^ 31
    → InRange dev p
    → IsGood writes
    → IsGood reads
    → 0 < count
    → p + count < 2 ^ 64
    → (r r' : Ret) × (scull_write writes dev count buf p ≡ some r)
      × (scull_read reads r.dev count p ≡ some r')
      × (r'.ret ≡ r.ret)
      × (r'.out ≡ bytes_from buf 0 (stored dev count p))
scull_write-scull_read dev count buf p writes reads q s narrow range gw gr c small =
    let known : IsHeld (unknown dev) dev = record {
      same_size = refl;
      held = λ j b r e. absurd (ground arith);
    } in
    let (r, done, ret, moved, held, quantum, qset) =
      scull_write-IsHeld dev count buf p q narrow range writes (unknown dev) s gw known in
    let (r', done', ret', out) =
      read_back dev r.dev count buf p reads q s narrow range gr c small held quantum qset in
    (r, r', done, done', ret' ∙ sym ret, out)
