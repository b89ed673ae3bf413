-- ===== src/Merge/Log.antt =====
-- The log of HW4-xmerge/xmerge.c: on every path what was opened is closed, the address limit is
-- restored and the buffer is freed.
use kernel_programming.Prelude.{
  ◌∙◌, none, Option, refl, ℕ, zero, suc, ◌+◌, ◌≡◌, refl, Bool, true, false, List, [], ◌∷◌, ◌++◌,
  Option, some, none, if◌then◌else◌, arith, ◌∙◌, Bool-cases, subst, inl, inr,
}
use kernel_programming.Prelude.Int.{ℤ, pos, negsuc}
use kernel_programming.Merge.{
  add_int, copy_round, merge_round, Answers, Event, opened_out, closed_out, opened_in, closed_in,
  set_fs, restored_fs, freed, wrote, reported, Copied, at_end, failed, Merged, prepend, copy_file,
  merge_files, log_some, after_open, xmerge,
}

-- How many events of a kind a log holds.
abbrev pub count_if : (Event → Bool) → List Event → ℕ
count_if q [] = 0
count_if q (e ∷ log) = (if q e then 1 else 0) + count_if q log

count_if-append :
    (q : Event → Bool) (a b : List Event) → count_if q (a ++ b) ≡ count_if q a + count_if q b
count_if-append q [] b = omega arith
count_if-append q (e ∷ a) b = omega (arith, count_if-append q a b)

abbrev pub is_opened_out : Event → Bool
is_opened_out opened_out = true
is_opened_out _ = false

abbrev pub is_closed_out : Event → Bool
is_closed_out closed_out = true
is_closed_out _ = false

abbrev pub is_opened_in : Event → Bool
is_opened_in opened_in = true
is_opened_in _ = false

abbrev pub is_closed_in : Event → Bool
is_closed_in closed_in = true
is_closed_in _ = false

abbrev pub is_set_fs : Event → Bool
is_set_fs set_fs = true
is_set_fs _ = false

abbrev pub is_restored_fs : Event → Bool
is_restored_fs restored_fs = true
is_restored_fs _ = false

abbrev pub is_freed : Event → Bool
is_freed freed = true
is_freed _ = false

abbrev pub is_reported : Event → Bool
is_reported (reported n) = true
is_reported _ = false

abbrev pub log_of : Option Copied → List Event
log_of none = []
log_of (some (at_end n log)) = log
log_of (some (failed e log)) = log

log_of-log_some :
    (q : Event → Bool) (b : List ℕ) (r : Option Copied)
    → q (wrote b) ≡ false
    → count_if q (log_of (log_some (wrote b) r)) ≡ count_if q (log_of r)
log_of-log_some q b none h = refl
log_of-log_some q b (some (at_end n log)) h = rw h (omega arith)
log_of-log_some q b (some (failed e log)) h = rw h (omega arith)

-- What a log holds from its opening of the output on: as many input files closed as opened, the
-- output closed once, the address limit restored once, the buffer freed once and the count of
-- files reported once.
abbrev pub IsClosed : List Event → Type 0
IsClosed log =
    (count_if is_opened_in log ≡ count_if is_closed_in log)
    × (count_if is_opened_out log ≡ 0)
    × (count_if is_closed_out log ≡ 1)
    × (count_if is_set_fs log ≡ 0)
    × (count_if is_restored_fs log ≡ 1)
    × (count_if is_freed log ≡ 1)
    × (count_if is_reported log ≡ 1)

-- Behind the opening of an input file and writes, its closing.
IsClosed-file :
    (writes log : List Event)
    → IsClosed log
    → ((q : Event → Bool) → ((b : List ℕ) → q (wrote b) ≡ false) → count_if q writes ≡ 0)
    → IsClosed ((opened_in ∷ writes) ++ closed_in ∷ log)
IsClosed-file writes log h quiet = omega (
  arith,
  count_if-append is_opened_in writes (closed_in ∷ log),
  count_if-append is_closed_in writes (closed_in ∷ log),
  count_if-append is_opened_out writes (closed_in ∷ log),
  count_if-append is_closed_out writes (closed_in ∷ log),
  count_if-append is_set_fs writes (closed_in ∷ log),
  count_if-append is_restored_fs writes (closed_in ∷ log),
  count_if-append is_freed writes (closed_in ∷ log),
  count_if-append is_reported writes (closed_in ∷ log),
  quiet is_opened_in (λ b. refl),
  quiet is_closed_in (λ b. refl),
  quiet is_opened_out (λ b. refl),
  quiet is_closed_out (λ b. refl),
  quiet is_set_fs (λ b. refl),
  quiet is_restored_fs (λ b. refl),
  quiet is_freed (λ b. refl),
  quiet is_reported (λ b. refl),
)

copy_round-log :
    (q : Event → Bool) (r w : ℤ) (b : List ℕ) (next : ℤ → Option Copied) (n : ℤ)
    → ((b : List ℕ) → q (wrote b) ≡ false)
    → ((m : ℤ) → count_if q (log_of (next m)) ≡ 0)
    → count_if q (log_of (copy_round r b w next n)) ≡ 0
copy_round-log q (negsuc e) w b next n h ih = refl
copy_round-log q (pos zero) w b next n h ih = refl
copy_round-log q (pos (suc r)) (negsuc e) b next n h ih = refl
copy_round-log q (pos (suc r)) (pos w) b next n h ih =
    log_of-log_some q b (next (add_int n w)) (h b) ∙ ih (add_int n w)

-- What is proved of a run that ends.
abbrev pub OnEnd : (Merged → Type 0) → Option Merged → Type 0
OnEnd P none = Unit {0}
OnEnd P (some m) = P m

abbrev pub IsClosedRun : Option Merged → Type 0
IsClosedRun = OnEnd (λ m. IsClosed m.log)

merge_round-IsClosed :
    (r : ℤ) (c : Option Copied) (next : ℤ → Option Merged) (i : ℕ)
    → ((q : Event → Bool) → ((b : List ℕ) → q (wrote b) ≡ false) → count_if q (log_of c) ≡ 0)
    → ((m : ℤ) → IsClosedRun (next m))
    → IsClosedRun (merge_round r c next i)
merge_round-IsClosed (negsuc e) c next i quiet ih = omega arith
merge_round-IsClosed (pos r) none next i quiet ih = tt
merge_round-IsClosed (pos r) (some (failed e log)) next i quiet ih =
    IsClosed-file log (closed_out ∷ reported i ∷ restored_fs ∷ freed ∷ []) (omega arith) quiet
merge_round-IsClosed (pos r) (some (at_end n log)) next i quiet ih =
    closed_next (next n) log (ih n) quiet
  where
    closed_next :
        (m : Option Merged) (log : List Event)
        → IsClosedRun m
        → ((q : Event → Bool) → ((b : List ℕ) → q (wrote b) ≡ false) → count_if q log ≡ 0)
        → IsClosedRun (prepend (opened_in ∷ log) (prepend (closed_in ∷ []) m))
    closed_next none log h quiet = tt
    closed_next (some m) log h quiet = IsClosed-file log m.log h quiet

module _ (ans : Answers) where
  -- The copy of a file logs writes alone.
  copy_file-log :
      (q : Event → Bool)
      → ((b : List ℕ) → q (wrote b) ≡ false)
      → (fuel i k : ℕ) (n : ℤ) → count_if q (log_of (copy_file ans fuel i k n)) ≡ 0
  unfolding copy_file
  copy_file-log q h zero i k n = refl
  copy_file-log q h (suc fuel) i k n =
      copy_round-log q (ans.read i k).0 (ans.write i k) (ans.read i k).1 _ n h
        (λ m. copy_file-log q h fuel i (k + 1) m)

  merge_files-IsClosed :
      (fuel n i : ℕ) (num_bytes : ℤ) → IsClosedRun (merge_files ans fuel n i num_bytes)
  unfolding merge_files
  merge_files-IsClosed fuel zero i num_bytes = omega arith
  merge_files-IsClosed fuel (suc n) i num_bytes =
      merge_round-IsClosed (ans.open_in i) (copy_file ans fuel i 0 num_bytes) _ i
        (λ q h. copy_file-log q h fuel i 0 num_bytes) (λ m. merge_files-IsClosed fuel n (i + 1) m)

-- As many input files are closed as opened, and the output, the address limit and the buffer are
-- given back as often as they were taken.
abbrev pub IsBalanced : List Event → Type 0
IsBalanced log =
    (count_if is_opened_in log ≡ count_if is_closed_in log)
    × (count_if is_opened_out log ≡ count_if is_closed_out log)
    × (count_if is_set_fs log ≡ count_if is_restored_fs log)
    × (count_if is_freed log ≡ 1)

opened-IsBalanced :
    (r : Option Merged)
    → IsClosedRun r
    → OnEnd (λ m. IsBalanced m.log) (prepend (opened_out ∷ set_fs ∷ []) r)
opened-IsBalanced none h = tt
opened-IsBalanced (some m) h = omega arith

module _ (ans : Answers) where
  after_open-IsBalanced :
      (fuel num_files : ℕ) (r : ℤ) → OnEnd (λ m. IsBalanced m.log) (after_open ans fuel num_files r)
  after_open-IsBalanced fuel num_files (negsuc e) = omega arith
  after_open-IsBalanced fuel num_files (pos fd) =
      opened-IsBalanced _ (merge_files-IsClosed ans fuel num_files 0 (pos 0))

  xmerge-OnEnd : (fuel num_files : ℕ) → OnEnd (λ m. IsBalanced m.log) (xmerge ans fuel num_files)
  unfolding xmerge
  xmerge-OnEnd fuel num_files = elim (Bool-cases ans.copy_from_user_fails) [
    | inl fails ↦ rw fails (omega arith)
    | inr copied ↦ rw copied (after_open-IsBalanced fuel num_files ans.open_out)
  ]

  -- Whatever the answers, each way out of the call leaves no file open, restores the address limit
  -- if it was changed, and frees the buffer once.
  pub xmerge-IsBalanced :
      (fuel num_files : ℕ) (m : Merged) → xmerge ans fuel num_files ≡ some m → IsBalanced m.log
  xmerge-IsBalanced fuel num_files m e =
      subst (OnEnd (λ m. IsBalanced m.log)) e (xmerge-OnEnd fuel num_files)
