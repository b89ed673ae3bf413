-- ===== src/Sched/Rt/Delist.antt =====
-- An entry may be taken off the priority array of kernel/sched/rt.c.
use kernel_programming.Prelude.{
  ℕ, suc, ◌^◌, ◌<◌, ◌≡◌, ◌≢◌, refl, ap, arith, Bool, true, false, not, List, [], ◌∷◌, count, length,
  Bool-cases, inl, inr, ℕ_discrete, if◌then◌else◌, count-remove-le, count-remove_self,
  remove-eq_of_count, ◌==◌, subst,
}
use kernel_programming.Prelude.Int.{ℤ, pos}
use kernel_programming.Sched.{RtRq, update}
use kernel_programming.Sched.Ts.{list_del}
use kernel_programming.Sched.Rt.{delist, dec_rt_tasks, is_empty, RtEnv, sub_u32}
use kernel_programming.Sched.Rt.Active.{
  FindsFirst, IsActive, IsUnlisted, total, total-change, total-zero, length-remove, find_lem,
  find-clear,
}

is_empty-length : (l : List ℕ) → length l ≡ 0 → is_empty l ≡ true
is_empty-length [] e = refl
is_empty-length (x ∷ l) e = absurd (omega arith)

is_empty-count : (p : ℕ) (l : List ℕ) → 0 < count p l → is_empty l ≡ false
is_empty-count p [] c = absurd (omega arith)
is_empty-count p (x ∷ l) c = refl

module _ (env : RtEnv) (first : FindsFirst env.find_first_bit) (prio : ℕ → ℤ) (p i : ℕ) (rt : RtRq)
    (v : IsActive env.find_first_bit rt prio) (e : prio p ≡ pos i) (lt : i < 100)
    (listed : 0 < count p (rt.queue i)) where
  abbrev shorter : ℕ → List ℕ
  shorter = list_del p rt.queue

  elsewhere : (j : ℕ) → j < 100 → i ≢ j → count p (rt.queue j) ≡ 0
  elsewhere j l ne = ground (arith, v.placed j p l)

  shorter-same : (j : ℕ) → j < 100 → i ≢ j → shorter j ≡ rt.queue j
  shorter-same j l ne = remove-eq_of_count p (rt.queue j) (elsewhere j l ne)

  shorter-total : suc (total 100 shorter) ≡ total 100 rt.queue
  shorter-total = omega (
    arith,
    total-change 100 i rt.queue shorter lt (λ j l ne. ap length (shorter-same j l ne)),
    length-remove p (rt.queue i),
    v.once i p lt,
  )

  -- The bitmap afterwards.
  abbrev bitmap' : ℕ → Bool
  bitmap' = if is_empty (shorter i) then update rt.bitmap i false else rt.bitmap

  bits_self : bitmap' i ≡ not (is_empty (shorter i))
  bits_self = ground (arith, v.bits i lt, is_empty-count p (rt.queue i) listed)

  shorter-bits : (j : ℕ) → j < 100 → bitmap' j ≡ not (is_empty (shorter j))
  shorter-bits j l = elim (ℕ_discrete i j) [
    | yes same ↦ subst (λ k. bitmap' k ≡ not (is_empty (shorter k))) same bits_self
    | no ne ↦ ground (arith, v.bits j l, shorter-same j l ne)
  ]

  delimited : bitmap' 100 ≡ true
  delimited = ground (arith, v.delimiter)

  find-kept :
      i ≢ env.find_first_bit rt.bitmap → env.find_first_bit bitmap' ≡ env.find_first_bit rt.bitmap
  find-kept ne = elim (Bool-cases (is_empty (shorter i))) [
    | inl gone ↦ rw gone (find-clear env.find_first_bit first rt.bitmap i v.delimiter ne)
    | inr left ↦ rw left refl
  ]

  find-none : total 100 shorter ≡ 0 → env.find_first_bit bitmap' ≡ 100
  find-none none_left =
      find_lem env.find_first_bit first bitmap' 100 (omega arith) delimited (λ j l.
        rw (shorter-bits j l, is_empty-length (shorter j) (total-zero 100 j shorter none_left l)))

  shorter-highest :
      (nr : ℕ)
      → nr ≡ total 100 shorter
      → (if nr == 0
          then 100
          else if i == rt.highest_prio
          then env.find_first_bit bitmap'
          else rt.highest_prio)
        ≡ env.find_first_bit bitmap'
  shorter-highest nr same = ground (arith, find-none, find-kept, v.highest)

  pub delist-IsUnlisted : IsUnlisted p (delist p i rt)
  unfolding delist
  delist-IsUnlisted j l = count-remove_self p (rt.queue j)

  -- An entry that is listed may be taken off.
  pub delist-IsActive :
      (rr : Bool)
      → total 100 rt.queue < 2 ^ 32
      → IsActive env.find_first_bit (dec_rt_tasks env rr i (delist p i rt)) prio
  unfolding delist dec_rt_tasks
  delist-IsActive rr few =
      let counted : sub_u32 rt.rt_nr_running 1 ≡ total 100 shorter =
        omega (arith, v.running, shorter-total) in
      record {
        placed = λ j q l c. v.placed j q l (omega (arith, count-remove-le p q (rt.queue j)));
        once = λ j q l. omega (arith, count-remove-le p q (rt.queue j), v.once j q l);
        bits = shorter-bits;
        delimiter = ground (arith, v.delimiter);
        highest = shorter-highest _ counted;
        running = counted;
      }
