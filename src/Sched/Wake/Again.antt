-- ===== src/Sched/Wake/Again.antt =====
-- Two wakeups of one task (kernel/sched/core.c).
use kernel_programming.Prelude.{
  ℕ, zero, suc, ◌/◌, ◌≡◌, refl, arith, Bool, false, some, subst, ap, none, if_cases, not, Option,
  true, ◌>>=◌, sym, ◌&&◌, ◌==◌,
}
use kernel_programming.Sched.{Rq}
use kernel_programming.Sched.Class.{External}
use kernel_programming.Sched.Wake.{
  common_bit, ttwu_do_wakeup, try_to_wake_up, ttwu_do_activate, ttwu_remote,
}

-- The state TASK_RUNNING is in no mask.
common_bit-zero : (n mask : ℕ) → common_bit n 0 mask ≡ false
unfolding common_bit
common_bit-zero zero mask = refl
common_bit-zero (suc n) mask = ground (arith, common_bit-zero n (mask / 2))

not_lem : (b : Bool) → not b ≡ true → b ≡ false
not_lem true e = absurd (ground arith)
not_lem false e = refl

and_right : (a b : Bool) → (a && b) ≡ true → b ≡ true
and_right true b e = e
and_right false b e = absurd (ground arith)

module _ (ext : External) (p mask flags : ℕ) where
  ttwu_do_wakeup_lem : (rq : Rq) → ((ttwu_do_wakeup ext rq p flags).task p).state ≡ 0
  unfolding ttwu_do_wakeup
  ttwu_do_wakeup_lem rq = ground arith

  refused_lem :
      (rq : Rq)
      → common_bit 32 (rq.task p).state mask ≡ false
      → (flags' : ℕ) → try_to_wake_up ext rq p mask flags' ≡ some (false, rq)
  unfolding try_to_wake_up
  refused_lem rq e flags' = rw e refl

  module _ (rq : Rq) where
    -- What a wakeup of `rq` leaves: the state is in no mask, and without a wakeup nothing changes.
    abbrev IsSettled : Bool → Rq → Type 0
    IsSettled woken rq' =
        (common_bit 32 (rq'.task p).state mask ≡ false) × (woken ≡ false → rq' ≡ rq)

    abbrev AllSettled : Option (Bool × Rq) → Type 0
    AllSettled o = (woken : Bool) (rq' : Rq) → o ≡ some (woken, rq') → IsSettled woken rq'

    some-AllSettled : (w : Bool) (x : Rq) → IsSettled w x → AllSettled (some (w, x))
    some-AllSettled w x s woken rq' e =
        subst (λ (r : Bool × Rq). IsSettled r.0 r.1)
          (ap (λ o. elim o as (λ o'. Bool × Rq) [ none ↦ (w, x) | some r ↦ r ]) e) s

    woken-AllSettled : (x : Rq) → AllSettled (some (true, ttwu_do_wakeup ext x p flags))
    woken-AllSettled x =
        some-AllSettled true _
          (rw (ttwu_do_wakeup_lem x) (common_bit-zero 32 mask), λ e. absurd (ground arith))

    queued-AllSettled :
        (o : Option Rq)
        → AllSettled ((o >>= λ y. some (ttwu_do_wakeup ext y p flags)) >>= λ y. some (true, y))
    queued-AllSettled none = λ woken rq' e. absurd (ground arith)
    queued-AllSettled (some y) = woken-AllSettled y

    remote_lem :
        (ttwu_remote ext rq p flags).0 ≡ true
        → (ttwu_remote ext rq p flags).1 ≡ ttwu_do_wakeup ext rq p flags
    unfolding ttwu_remote
    remote_lem e = ground arith

    try_to_wake_up-AllSettled : AllSettled (try_to_wake_up ext rq p mask flags)
    unfolding try_to_wake_up ttwu_do_activate
    try_to_wake_up-AllSettled =
        if_cases AllSettled (not (common_bit 32 (rq.task p).state mask)) (some (false, rq)) _
          (λ e. some-AllSettled false rq (not_lem _ e, λ same. refl))
          (λ e.
            if_cases AllSettled (not ((rq.task p).on_rq == 0) && (ttwu_remote ext rq p flags).0)
              (some (true, (ttwu_remote ext rq p flags).1)) _
              (λ e'.
                subst (λ x. AllSettled (some (true, x))) (sym (remote_lem (and_right _ _ e')))
                  (woken-AllSettled rq))
              (λ e'. queued-AllSettled _))

  -- After a wakeup that does not fault, whether it woke the task or not, a second wakeup of the task
  -- for the same states, with whatever flags, returns false and changes nothing; so does the first
  -- one when it returns false.
  pub try_to_wake_up-again :
      (rq : Rq) (woken : Bool) (rq' : Rq)
      → try_to_wake_up ext rq p mask flags ≡ some (woken, rq')
      → ((flags' : ℕ) → try_to_wake_up ext rq' p mask flags' ≡ some (false, rq'))
        × (woken ≡ false → rq' ≡ rq)
  try_to_wake_up-again rq woken rq' e =
      let (settled, same) = try_to_wake_up-AllSettled rq woken rq' e in
      (λ flags'. refused_lem rq' settled flags', same)
