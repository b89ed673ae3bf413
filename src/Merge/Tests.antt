-- ===== src/Merge/Tests.antt =====
-- Runs of HW4-xmerge/xmerge.c on two input files of one block each.
use kernel_programming.Prelude.{
  ℕ, zero, suc, List, [], ◌∷◌, ◌++◌, false, some, ◌<◌, ◌≡◌, refl, arith,
}
use kernel_programming.Prelude.Int.{ℤ, pos, negsuc}
use kernel_programming.Merge.{
  Answers, Merged, opened_out, set_fs, restored_fs, closed_out, reported, freed, xmerge,
}
use kernel_programming.Merge.Run.{IsStop, xmerge_total}
use kernel_programming.Merge.Success.{copies_of, FilesFrom, xmerge-FilesFrom, xmerge-open_fails}
use kernel_programming.Merge.Log.{IsBalanced, xmerge-IsBalanced}

abbrev one_block : ℕ → ℤ × List ℕ
one_block zero = (pos 2, 65 ∷ 66 ∷ [])
one_block (suc k) = (pos 0, [])

abbrev answers : Answers
answers = record {
  copy_from_user_fails = false;
  open_out = pos 3;
  open_in = λ i. pos 4;
  read = λ i k. one_block k;
  write = λ i k. pos 2;
}

abbrev files : List (List (List ℕ))
files = ((65 ∷ 66 ∷ []) ∷ []) ∷ ((65 ∷ 66 ∷ []) ∷ []) ∷ []

abbrev no_third : ℕ → ℤ
no_third (suc (suc i)) = negsuc 1
no_third _ = pos 4

abbrev third_missing : Answers
third_missing = record answers { open_in = no_third }

stops : (i : ℕ) → (t : ℕ) × (t < 2) × IsStop (answers.read i t).0
stops i = (1, ground arith, ground arith)

xmerge_total_example : (m : Merged) × (xmerge answers 2 2 ≡ some m)
xmerge_total_example = xmerge_total answers 2 2 stops

xmerge-IsBalanced_example : IsBalanced (xmerge_total answers 2 2 stops).0.log
xmerge-IsBalanced_example =
    xmerge-IsBalanced answers 2 2 (xmerge_total answers 2 2 stops).0
      (xmerge_total answers 2 2 stops).1

both_files : FilesFrom answers 0 files
both_files = (
  (4, refl),
  (ground arith, refl, refl, refl, refl),
  ((4, refl), (ground arith, refl, refl, refl, refl), tt),
)

xmerge-FilesFrom_example :
    xmerge answers 2 2
    ≡ some (record {
      value = pos 4;
      log =
          opened_out
          ∷ set_fs
          ∷ (copies_of files ++ restored_fs ∷ closed_out ∷ reported 2 ∷ freed ∷ []);
    })
xmerge-FilesFrom_example =
    xmerge-FilesFrom answers 2 3 files refl refl (ground arith, (ground arith, tt)) both_files
      (omega arith)

before_third : FilesFrom third_missing 0 files
before_third = (
  (4, refl),
  (ground arith, refl, refl, refl, refl),
  ((4, refl), (ground arith, refl, refl, refl, refl), tt),
)

xmerge-open_fails_example :
    xmerge third_missing 2 5
    ≡ some (record {
      value = negsuc 1;
      log =
          opened_out
          ∷ set_fs
          ∷ (copies_of files ++ closed_out ∷ reported 2 ∷ restored_fs ∷ freed ∷ []);
    })
xmerge-open_fails_example =
    xmerge-open_fails third_missing 2 3 2 1 files refl refl (ground arith, (ground arith, tt))
      before_third (omega arith) refl
