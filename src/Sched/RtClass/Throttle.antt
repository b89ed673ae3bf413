-- ===== src/Sched/RtClass/Throttle.antt =====
-- The bandwidth of the real-time class (kernel/sched/rt.c): the class is throttled when its time is
-- used up, and the timer of the period brings it back.
use kernel_programming.Prelude.{
  ℕ, ◌≡◌, refl, sym, Bool, true, false, not, ◌==◌, ltb, ◌&&◌, subst, ap, if_cases,
}
use kernel_programming.Sched.{Rq}
use kernel_programming.Sched.Rt.{RtEnv}
use kernel_programming.Sched.RtClass.{timer_round, sched_rt_rq_enqueue, time_left}

and_left : (a b : Bool) → (a && b) ≡ true → a ≡ true
and_left true b e = refl
and_left false b e = e

and_not-true : (a b : Bool) → (a && b) ≡ true → (a && not (a && b)) ≡ false
and_not-true true b e = ap not e
and_not-true false b e = refl

and_not-false : (a b : Bool) → (a && b) ≡ false → (a && not (a && b)) ≡ a
and_not-false true b e = ap not e
and_not-false false b e = refl

module _ (env : RtEnv) where
  -- The runqueue with what is left of its time, throttled or not.
  abbrev pub refilled : Bool → Rq → ℕ → Rq
  refilled over rq overrun = record rq {
    rt = record rq.rt { rt_time = time_left env rq.rt overrun; rt_throttled = over };
  }

  -- The ways through the round of the timer.
  pub timer_round_cases :
      (P : Bool × Rq → Type 0) (rq : Rq) (overrun : ℕ)
      → P (true, rq)
      → P (false, rq)
      → (rq.rt.rt_throttled ≡ false → P (false, sched_rt_rq_enqueue env rq))
      → ((b : Bool) → P (b, refilled rq.rt.rt_throttled rq overrun))
      → ((b : Bool)
          → rq.rt.rt_throttled ≡ true
          → P (b, sched_rt_rq_enqueue env (refilled false rq overrun)))
      → P (timer_round env rq overrun)
  unfolding timer_round
  timer_round_cases P rq overrun idle waits late less back =
      if_cases P (rq.rt.rt_time == 0 && rq.rt.rt_nr_running == 0) _ _ (λ e. idle)
        (λ e.
          if_cases P (rq.rt.rt_time == 0) _ _
            (λ e'. if_cases (λ x. P (false, x)) rq.rt.rt_throttled _ _ (λ o. waits) late)
            (λ e'.
              if_cases (λ x. P (calm, x)) (rq.rt.rt_throttled && fits) _ _
                (λ o.
                  subst (λ t. P (calm, sched_rt_rq_enqueue env (refilled t rq overrun)))
                    (sym (and_not-true _ _ o)) (back calm (and_left _ _ o)))
                (λ o.
                  subst (λ t. P (calm, refilled t rq overrun)) (sym (and_not-false _ _ o))
                    (less calm))))
    where
      fits : Bool
      fits = ltb (time_left env rq.rt overrun) rq.rt.rt_runtime

      calm : Bool
      calm = time_left env rq.rt overrun == 0 && rq.rt.rt_nr_running == 0
