-- ===== src/Merge/Success.antt =====
-- HW4-xmerge/xmerge.c on input files that can be read to their ends: what is returned, written and
-- reported, and what an open that fails behind them gives.
use mathlib.Core.List.{append_assoc}
use kernel_programming.Prelude.{
  ◌^◌, ℕ, zero, suc, ◌+◌, ◌<◌, ◌≡◌, refl, false, List, [], ◌∷◌, ◌++◌, Option, some, none, arith,
  ◌∙◌, ap, sym, length,
}
use kernel_programming.Prelude.Int.{ℤ, pos, negsuc}
use kernel_programming.Merge.{
  add_int, Answers, Event, opened_out, closed_out, opened_in, closed_in, set_fs, restored_fs, freed,
  wrote, reported, Copied, at_end, Merged, prepend, copy_file, merge_files, xmerge, log_some,
  copy_round, merge_round,
}

-- The reads of the file `i` from the k-th on give these blocks, none empty, and then the end; each
-- block is written whole.
abbrev pub ReadsFrom : Answers → ℕ → ℕ → List (List ℕ) → Type 0
ReadsFrom ans i k [] = (ans.read i k).0 ≡ pos 0
ReadsFrom ans i k (b ∷ bs) =
    (0 < length b)
    × ((ans.read i k).0 ≡ pos (length b))
    × ((ans.read i k).1 ≡ b)
    × (ans.write i k ≡ pos (length b))
    × ReadsFrom ans i (k + 1) bs

-- The files from `i` on can be opened and hold these blocks.
abbrev pub FilesFrom : Answers → ℕ → List (List (List ℕ)) → Type 0
FilesFrom ans i [] = Unit {0}
FilesFrom ans i (f ∷ fs) =
    ((fd : ℕ) × (ans.open_in i ≡ pos fd)) × ReadsFrom ans i 0 f × FilesFrom ans (i + 1) fs

-- Each file has fewer blocks than the fuel.
abbrev pub IsEnough : ℕ → List (List (List ℕ)) → Type 0
IsEnough fuel [] = Unit {0}
IsEnough fuel (f ∷ fs) = (length f < fuel) × IsEnough fuel fs

abbrev pub bytes_of : List (List ℕ) → ℕ
bytes_of [] = 0
bytes_of (b ∷ bs) = length b + bytes_of bs

abbrev pub total_of : List (List (List ℕ)) → ℕ
total_of [] = 0
total_of (f ∷ fs) = bytes_of f + total_of fs

abbrev pub writes_of : List (List ℕ) → List Event
writes_of [] = []
writes_of (b ∷ bs) = wrote b ∷ writes_of bs

-- What the copy of the files logs: each is opened, written block by block, and closed.
abbrev pub copies_of : List (List (List ℕ)) → List Event
copies_of [] = []
copies_of (f ∷ fs) = (opened_in ∷ writes_of f) ++ closed_in ∷ copies_of fs

-- The files and `n` more.
abbrev pub files_then : List (List (List ℕ)) → ℕ → ℕ
files_then [] n = n
files_then (_ ∷ fs) n = suc (files_then fs n)

abbrev pub index_after : ℕ → List (List (List ℕ)) → ℕ
index_after i [] = i
index_after i (_ ∷ fs) = index_after (i + 1) fs

add_int_lem : (a b : ℕ) → a + b < 2 ^ 31 → add_int (pos a) b ≡ pos (a + b)
add_int_lem a b lt = ground arith

block_round :
    (r w : ℤ) (b : List ℕ) (next : ℤ → Option Copied) (n size : ℕ)
    → 0 < size
    → r ≡ pos size
    → w ≡ pos size
    → n + size < 2 ^ 31
    → copy_round r b w next (pos n) ≡ log_some (wrote b) (next (pos (n + size)))
block_round r w b next n zero h er ew lt = absurd (omega arith)
block_round r w b next n (suc size) h er ew lt = rw (er, ew, add_int_lem n (suc size) lt)

prepend-prepend :
    (a b : List Event) (m : Option Merged) → prepend a (prepend b m) ≡ prepend (a ++ b) m
prepend-prepend a b none = refl
prepend-prepend a b (some m) = ap (λ l. some (record m { log = l })) (sym (append_assoc a b m.log))

prepend-nil : (m : Option Merged) → prepend [] m ≡ m
prepend-nil none = refl
prepend-nil (some m) = refl

file_round :
    (r : ℤ) (c : Option Copied) (next : ℤ → Option Merged) (i fd : ℕ) (n : ℤ) (log : List Event)
    → r ≡ pos fd
    → c ≡ some (at_end n log)
    → merge_round r c next i ≡ prepend (opened_in ∷ log) (prepend (closed_in ∷ []) (next n))
file_round r c next i fd n log er ec = rw (er, ec)

module _ (ans : Answers) where
  copy_file-ReadsFrom :
      (fuel i k n : ℕ) (bs : List (List ℕ))
      → length bs < fuel
      → ReadsFrom ans i k bs
      → n + bytes_of bs < 2 ^ 31
      → copy_file ans fuel i k (pos n) ≡ some (at_end (pos (n + bytes_of bs)) (writes_of bs))
  unfolding copy_file
  copy_file-ReadsFrom zero i k n bs h rs lt = absurd (omega arith)
  copy_file-ReadsFrom (suc fuel) i k n [] h rs lt = simp rs (ground arith)
  copy_file-ReadsFrom (suc fuel) i k n (b ∷ bs) h rs lt =
      block_round (ans.read i k).0 (ans.write i k) (ans.read i k).1 (copy_file ans fuel i (k + 1)) n
        (length b) rs.0 rs.1 rs.3 (omega arith)
      ∙ ap (log_some (wrote (ans.read i k).1))
          (copy_file-ReadsFrom fuel i (k + 1) (n + length b) bs (omega arith) rs.4 (omega arith))
      ∙ ground (arith, rs.2)

  -- Files that can be read are copied whole, in order, before what follows them.
  merge_files-FilesFrom :
      (fuel n i b : ℕ) (fs : List (List (List ℕ)))
      → IsEnough fuel fs
      → FilesFrom ans i fs
      → b + total_of fs < 2 ^ 31
      → merge_files ans fuel (files_then fs n) i (pos b)
        ≡ prepend (copies_of fs) (merge_files ans fuel n (index_after i fs) (pos (b + total_of fs)))
  unfolding merge_files
  merge_files-FilesFrom fuel n i b [] e f lt =
      ap (λ t. merge_files ans fuel n i (pos t)) (omega arith) ∙ sym (prepend-nil _)
  merge_files-FilesFrom fuel n i b (bs ∷ fs) e f lt =
      let end = b + bytes_of bs in
      let after = λ (t : ℕ). merge_files ans fuel n (index_after (i + 1) fs) (pos t) in
      file_round (ans.open_in i) _ (merge_files ans fuel (files_then fs n) (i + 1)) i f.0.0 _ _
        f.0.1 (copy_file-ReadsFrom fuel i 0 b bs e.0 f.1 (omega arith))
      ∙ ap (λ m. prepend (opened_in ∷ writes_of bs) (prepend (closed_in ∷ []) m))
          (merge_files-FilesFrom fuel n (i + 1) end fs e.1 f.2 (omega arith))
      ∙ ap (prepend (opened_in ∷ writes_of bs)) (prepend-prepend (closed_in ∷ []) (copies_of fs) _)
      ∙ prepend-prepend (opened_in ∷ writes_of bs) (closed_in ∷ copies_of fs) _
      ∙ ap (λ t. prepend (copies_of (bs ∷ fs)) (after t)) (omega arith)

  -- If the arguments can be read and the output and all input files opened, and each input file can
  -- be read to its end and written block by block, and all files together have fewer than 2^31
  -- bytes, which is what the int that counts them holds, then the call returns the number of bytes
  -- in the files, and it has written each file's blocks in order, between the file's opening and
  -- closing, and reports all files.
  pub xmerge-FilesFrom :
      (fuel fd : ℕ) (fs : List (List (List ℕ)))
      → ans.copy_from_user_fails ≡ false
      → ans.open_out ≡ pos fd
      → IsEnough fuel fs
      → FilesFrom ans 0 fs
      → total_of fs < 2 ^ 31
      → xmerge ans fuel (files_then fs 0)
        ≡ some (record {
          value = pos (total_of fs);
          log =
              opened_out
              ∷ set_fs
              ∷ (copies_of fs
                  ++ restored_fs ∷ closed_out ∷ reported (index_after 0 fs) ∷ freed ∷ []);
        })
  unfolding xmerge merge_files
  xmerge-FilesFrom fuel fd fs copied out e f lt =
      simp (copied, out)
        (ap (prepend (opened_out ∷ set_fs ∷ []))
            (merge_files-FilesFrom fuel 0 0 0 fs e f (omega arith))
          ∙ ground arith)

  -- If the arguments can be read, the output and some input files opened, these can be read to
  -- their ends and written block by block and have together fewer than 2^31 bytes, and the open of
  -- the file behind them fails, then the call returns the error of that open, whatever files
  -- follow. The files before it are written in order and reported, the output is closed, and the
  -- names freed.
  pub xmerge-open_fails :
      (fuel fd n err : ℕ) (fs : List (List (List ℕ)))
      → ans.copy_from_user_fails ≡ false
      → ans.open_out ≡ pos fd
      → IsEnough fuel fs
      → FilesFrom ans 0 fs
      → total_of fs < 2 ^ 31
      → ans.open_in (index_after 0 fs) ≡ negsuc err
      → xmerge ans fuel (files_then fs (suc n))
        ≡ some (record {
          value = negsuc err;
          log =
              opened_out
              ∷ set_fs
              ∷ (copies_of fs
                  ++ closed_out ∷ reported (index_after 0 fs) ∷ restored_fs ∷ freed ∷ []);
        })
  unfolding xmerge merge_files
  xmerge-open_fails fuel fd n err fs copied out e f lt fails =
      simp (copied, out)
        (ap (prepend (opened_out ∷ set_fs ∷ []))
            (merge_files-FilesFrom fuel (suc n) 0 0 fs e f (omega arith))
          ∙ simp fails)
