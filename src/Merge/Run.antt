-- ===== src/Merge/Run.antt =====
-- What HW4-xmerge/xmerge.c returns and writes: termination, success and a failing open.
use kernel_programming.Prelude.{
  ℕ, zero, suc, ◌+◌, ◌<◌, ◌≡◌, refl, List, [], ◌∷◌, ◌++◌, Option, some, arith, ap, Bool-cases, inl,
  inr,
}
use kernel_programming.Prelude.Int.{ℤ, pos, negsuc}
use kernel_programming.Merge.{
  add_int, Answers, opened_out, opened_in, closed_in, set_fs, freed, wrote, Copied, at_end, failed,
  Merged, prepend, copy_file, merge_files, xmerge, log_write, log_some, succeed, close1_and_quit,
  close2_and_quit, copy_round, merge_round, after_open,
}

-- A read that ends the loop: the end of the file or an error.
abbrev pub IsStop : ℤ → Type 0
IsStop (negsuc e) = Unit {0}
IsStop (pos zero) = Unit {0}
IsStop (pos (suc n)) = ⊥

copy_round_stop :
    (r w : ℤ) (b : List ℕ) (next : ℤ → Option Copied) (n : ℤ)
    → IsStop r
    → (c : Copied) × (copy_round r b w next n ≡ some c)
copy_round_stop (negsuc e) w b next n h = (failed (negsuc e) [], refl)
copy_round_stop (pos zero) w b next n h = (at_end n [], refl)
copy_round_stop (pos (suc r)) w b next n h = absurd h

copy_round_total :
    (r w : ℤ) (b : List ℕ) (next : ℤ → Option Copied) (n : ℤ)
    → ((m : ℤ) → (c : Copied) × (next m ≡ some c))
    → (c : Copied) × (copy_round r b w next n ≡ some c)
copy_round_total (negsuc e) w b next n h = (failed (negsuc e) [], refl)
copy_round_total (pos zero) w b next n h = (at_end n [], refl)
copy_round_total (pos (suc r)) (negsuc e) b next n h = (failed (negsuc e) [], refl)
copy_round_total (pos (suc r)) (pos w) b next n h =
    let (c, e) = h (add_int n w) in (log_write (wrote b) c, ap (log_some (wrote b)) e)

merge_round_total :
    (r : ℤ) (c : Copied) (next : ℤ → Option Merged) (i : ℕ)
    → ((m : ℤ) → (x : Merged) × (next m ≡ some x))
    → (x : Merged) × (merge_round r (some c) next i ≡ some x)
merge_round_total (negsuc e) c next i h = (close1_and_quit (negsuc e) i, refl)
merge_round_total (pos r) (failed e log) next i h =
    (record (close2_and_quit e i) { log = (opened_in ∷ log) ++ (close2_and_quit e i).log }, refl)
merge_round_total (pos r) (at_end n log) next i h =
    let (x, e) = h n in
    (
      record x { log = (opened_in ∷ log) ++ closed_in ∷ x.log },
      ap (λ m. prepend (opened_in ∷ log) (prepend (closed_in ∷ []) m)) e,
    )

module _ (ans : Answers) where
  copy_file_total :
      (fuel i k j t : ℕ) (n : ℤ)
      → k + j ≡ t
      → j < fuel
      → IsStop (ans.read i t).0
      → (c : Copied) × (copy_file ans fuel i k n ≡ some c)
  unfolding copy_file
  copy_file_total zero i k j t n e h stop = absurd (omega arith)
  copy_file_total (suc fuel) i k zero t n e h stop =
      let same : t ≡ k = omega arith in
      copy_round_stop (ans.read i k).0 (ans.write i k) (ans.read i k).1 _ n (rw same at stop)
  copy_file_total (suc fuel) i k (suc j) t n e h stop =
      copy_round_total (ans.read i k).0 (ans.write i k) (ans.read i k).1 _ n
        (λ m. copy_file_total fuel i (k + 1) j t m (omega arith) (omega arith) stop)

  merge_files_total :
      (fuel n i : ℕ) (num_bytes : ℤ)
      → ((i : ℕ) → (t : ℕ) × (t < fuel) × IsStop (ans.read i t).0)
      → (x : Merged) × (merge_files ans fuel n i num_bytes ≡ some x)
  unfolding merge_files
  merge_files_total fuel zero i num_bytes h = (succeed num_bytes i, refl)
  merge_files_total fuel (suc n) i num_bytes h =
      let (t, lt, stop) = h i in
      let (c, e) = copy_file_total fuel i 0 t t num_bytes (omega arith) lt stop in
      rw e (merge_round_total (ans.open_in i) c _ i (λ m. merge_files_total fuel n (i + 1) m h))

  after_open_total :
      (fuel num_files : ℕ) (r : ℤ)
      → ((i : ℕ) → (t : ℕ) × (t < fuel) × IsStop (ans.read i t).0)
      → (x : Merged) × (after_open ans fuel num_files r ≡ some x)
  after_open_total fuel num_files (negsuc e) h =
      (record { value = negsuc e; log = freed ∷ [] }, refl)
  after_open_total fuel num_files (pos fd) h =
      let (x, e) = merge_files_total fuel num_files 0 (pos 0) h in
      (record x { log = opened_out ∷ set_fs ∷ x.log }, ap (prepend (opened_out ∷ set_fs ∷ [])) e)

  -- If each input file comes to its end or to an error in fewer reads than the fuel, the call
  -- returns.
  pub xmerge_total :
      (fuel num_files : ℕ)
      → ((i : ℕ) → (t : ℕ) × (t < fuel) × IsStop (ans.read i t).0)
      → (m : Merged) × (xmerge ans fuel num_files ≡ some m)
  unfolding xmerge
  xmerge_total fuel num_files h = elim (Bool-cases ans.copy_from_user_fails) [
    | inl fails ↦ (record { value = negsuc 13; log = freed ∷ [] }, rw fails)
    | inr copied ↦ let (x, e) = after_open_total fuel num_files ans.open_out h in (x, simp copied e)
  ]
