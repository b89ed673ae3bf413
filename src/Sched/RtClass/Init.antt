-- ===== src/Sched/RtClass/Init.antt =====
-- `init_rt_rq` of kernel/sched/rt.c.
use kernel_programming.Prelude.{
  ℕ, zero, suc, ◌+◌, ◌≤◌, ◌<◌, ◌≡◌, refl, List, [], arith, Bool, false, ◌⊎◌, inl, inr, ℕ_discrete,
  ◌∙◌, length, sym, ap,
}
use kernel_programming.Prelude.Int.{ℤ}
use kernel_programming.Sched.{RtRq, update}
use kernel_programming.Sched.Rt.{init_array, init_rt_rq}
use kernel_programming.Sched.Rt.Active.{
  FindsFirst, IsActive, total, total-congr, find_lem, total-nil,
}

-- The loop empties the lists and clears the bits at its indices, and no others.
init_array_lem :
    (n i j : ℕ) (rt : RtRq)
    → let rt' = init_array n i rt in
      (i ≤ j → j < i + n → (rt'.queue j ≡ []) × (rt'.bitmap j ≡ false))
      × ((j < i) ⊎ (i + n ≤ j) → (rt'.queue j ≡ rt.queue j) × (rt'.bitmap j ≡ rt.bitmap j))
      × (rt'.rt_nr_running ≡ rt.rt_nr_running)
unfolding init_array
init_array_lem zero i j rt = (λ lo hi. absurd (omega arith), λ out. (refl, refl), refl)
init_array_lem (suc n) i j rt =
    let rt1 = record rt { queue = update rt.queue i []; bitmap = update rt.bitmap i false } in
    let ih = init_array_lem n (i + 1) j rt1 in
    (
      λ lo hi. elim (ℕ_discrete i j) [
        | yes e ↦
            let same = ih.1 (inl (omega arith)) in
            (same.0 ∙ ground (arith, e), same.1 ∙ ground (arith, e))
        | no ne ↦ ih.0 (omega arith) (omega arith)
      ],
      elim [
        | inl h ↦
            let same = ih.1 (inl (omega arith)) in (same.0 ∙ ground arith, same.1 ∙ ground arith)
        | inr h ↦
            let same = ih.1 (inr (omega arith)) in (same.0 ∙ ground arith, same.1 ∙ ground arith)
      ],
      ih.2,
    )

total-empty : (n : ℕ) (q : ℕ → List ℕ) → ((j : ℕ) → j < n → q j ≡ []) → total n q ≡ 0
total-empty n q none_there =
    total-congr n (λ j. []) q (λ j lt. ap length (none_there j lt)) ∙ total-nil n

-- Whatever the memory held, a runqueue of the class whose count of tasks is 0 is well formed after
-- its initialisation: its lists are empty, its bits clear but for the delimiter, and it is neither
-- counted nor throttled.
pub init_rt_rq-IsActive :
    (find : (ℕ → Bool) → ℕ) (rt : RtRq) (prio : ℕ → ℤ)
    → FindsFirst find
    → rt.rt_nr_running ≡ 0
    → IsActive find (init_rt_rq rt) prio
      × ((init_rt_rq rt).rt_queued ≡ false)
      × ((init_rt_rq rt).rt_throttled ≡ false)
      × ((init_rt_rq rt).rt_time ≡ 0)
unfolding init_rt_rq
init_rt_rq-IsActive find rt prio first e =
    let empty =
      λ (j : ℕ) (lt : j < 100). (init_array_lem 100 0 j rt).0 (omega arith) (omega arith) in
    (
      record {
        placed = λ i p lt c. absurd (ground (arith, empty i lt));
        once = λ i p lt. ground (arith, empty i lt);
        bits = λ i lt. ground (arith, empty i lt);
        delimiter = ground arith;
        highest =
            (sym (
              find_lem find first _ 100 (omega arith) (ground arith)
                (λ j lt. ground (arith, empty j lt))));
        running =
            (init_array_lem 100 0 0 rt).2
            ∙ e
            ∙ sym (total-empty 100 _ (λ j lt. ground (arith, empty j lt)));
      },
      refl,
      refl,
      refl,
    )
