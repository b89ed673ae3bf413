-- ===== src/Merge.antt =====
-- HW4-xmerge/xmerge.c, the system call `xmerge`: it writes the input files one behind the other to
-- the output file. What the kernel's file operations answer is a record, and the calls with an
-- effect are logged in order. Arguments that the call reads without a check are taken as readable,
-- and the kmalloc of the names, whose answer the call does not look at, as one that succeeds.
pub mod Run
pub mod Success
pub mod Log
mod Tests
use kernel_programming.Prelude.{
  ltb, ◌^◌, ◌%◌, ◌-◌, ℕ, zero, suc, ◌+◌, Bool, true, false, List, [], ◌∷◌, ◌++◌, Option, some, none,
  if◌then◌else◌,
}
use kernel_programming.Prelude.Int.{ℤ, pos, negsuc, ◌+ℤ◌}

-- The answers: a negative number is an error. `read i k` and `write i k` answer the k-th call for
-- the input file `i`; a read gives its bytes too.
pub record Answers : Type 0 where
  pub copy_from_user_fails : Bool
  pub open_out : ℤ
  pub open_in : ℕ → ℤ
  pub read : ℕ → ℕ → ℤ × List ℕ
  pub write : ℕ → ℕ → ℤ

pub data Event : Type 0 where
  opened_out closed_out opened_in closed_in set_fs restored_fs freed : Event
  wrote : List ℕ → Event
  -- `copy_to_user(p->ofile_count, …)`
  reported : ℕ → Event

-- How the copy of one input file ends.
pub data Copied : Type 0 where
  at_end : ℤ → List Event → Copied
  failed : ℤ → List Event → Copied

abbrev pub log_write : Event → Copied → Copied
log_write e (at_end n log) = at_end n (e ∷ log)
log_write e (failed errno log) = failed errno (e ∷ log)

abbrev pub log_some : Event → Option Copied → Option Copied
log_some e none = none
log_some e (some c) = some (log_write e c)

-- The value returned, and the log.
pub record Merged : Type 0 where
  pub value : ℤ
  pub log : List Event

abbrev pub prepend : List Event → Option Merged → Option Merged
prepend events none = none
prepend events (some m) = some (record m { log = events ++ m.log })

-- The exit points.
abbrev pub succeed : ℤ → ℕ → Merged
succeed num_bytes ofile_count = record {
  value = num_bytes;
  log = restored_fs ∷ closed_out ∷ reported ofile_count ∷ freed ∷ [];
}

abbrev pub close1_and_quit : ℤ → ℕ → Merged
close1_and_quit errno ofile_count = record {
  value = errno;
  log = closed_out ∷ reported ofile_count ∷ restored_fs ∷ freed ∷ [];
}

abbrev pub close2_and_quit : ℤ → ℕ → Merged
close2_and_quit errno ofile_count = record {
  value = errno;
  log = closed_in ∷ closed_out ∷ reported ofile_count ∷ restored_fs ∷ freed ∷ [];
}

-- The 32 bits of an int, as its value.
abbrev pub int_of : ℕ → ℤ
int_of n = if ltb n (2 ^ 31) then pos n else negsuc (2 ^ 32 - 1 - n)

-- `num_bytes += bytes_write`, which wraps.
abbrev pub add_int : ℤ → ℕ → ℤ
add_int (pos n) w = int_of ((n + w) % 2 ^ 32)
add_int (negsuc n) w = int_of ((2 ^ 32 - 1 - n + w) % 2 ^ 32)

-- One round of `while (1)`: the result of the read and its bytes, the result of the write, the
-- rounds after it, and the bytes counted so far. A write that takes fewer bytes is not repeated.
abbrev pub copy_round : ℤ → List ℕ → ℤ → (ℤ → Option Copied) → ℤ → Option Copied
copy_round (negsuc e) bytes w next num_bytes = some (failed (negsuc e) [])
copy_round (pos zero) bytes w next num_bytes = some (at_end num_bytes [])
copy_round (pos (suc _)) bytes (negsuc e) next num_bytes = some (failed (negsuc e) [])
copy_round (pos (suc _)) bytes (pos w) next num_bytes =
    log_some (wrote bytes) (next (add_int num_bytes w))

-- What follows the copy of the file `i`: the next files, or the way out.
abbrev pub after_copy : Option Copied → (ℤ → Option Merged) → ℕ → Option Merged
after_copy none next i = none
after_copy (some (failed errno log)) next i =
    prepend (opened_in ∷ log) (some (close2_and_quit errno i))
after_copy (some (at_end num_bytes log)) next i =
    prepend (opened_in ∷ log) (prepend (closed_in ∷ []) (next num_bytes))

abbrev pub merge_round : ℤ → Option Copied → (ℤ → Option Merged) → ℕ → Option Merged
merge_round (negsuc e) copied next i = some (close1_and_quit (negsuc e) i)
merge_round (pos _) copied next i = after_copy copied next i

abbrev pub efault : ℤ
efault = negsuc 13

module _ (ans : Answers) where
  -- The reads of the file `i` from the k-th on; `none` is out of fuel.
  pub copy_file : ℕ → ℕ → ℕ → ℤ → Option Copied
  copy_file zero i k num_bytes = none
  copy_file (suc fuel) i k num_bytes =
      let (r, bytes) = ans.read i k in
      copy_round r bytes (ans.write i k) (copy_file fuel i (k + 1)) num_bytes

  -- The loop over the input files: `n` are left, and `i` are done, which is `ofile_count` too.
  pub merge_files : ℕ → ℕ → ℕ → ℤ → Option Merged
  unfolding copy_file
  merge_files fuel zero i num_bytes = some (succeed num_bytes i)
  merge_files fuel (suc n) i num_bytes =
      merge_round (ans.open_in i) (copy_file fuel i 0 num_bytes) (merge_files fuel n (i + 1)) i

  abbrev pub after_open : ℕ → ℕ → ℤ → Option Merged
  after_open fuel num_files (negsuc e) = some (record { value = negsuc e; log = freed ∷ [] })
  after_open fuel num_files (pos _) =
      prepend (opened_out ∷ set_fs ∷ []) (merge_files fuel num_files 0 (pos 0))

  pub xmerge : ℕ → ℕ → Option Merged
  unfolding merge_files
  xmerge fuel num_files =
      if ans.copy_from_user_fails
      then some (record { value = efault; log = freed ∷ [] })
      else after_open fuel num_files ans.open_out
