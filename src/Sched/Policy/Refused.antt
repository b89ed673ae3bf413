-- ===== src/Sched/Policy/Refused.antt =====
-- The errors of `__sched_setscheduler` and of the nice system call (kernel/sched/core.c).
use kernel_programming.Prelude.{true, false, ℕ, Bool, some, none, Option, ◌>>=◌, if◌then◌else◌}
use kernel_programming.Prelude.Int.{ℤ}
use kernel_programming.Sched.{Rq}
use kernel_programming.Sched.Class.{External}
use kernel_programming.Sched.Prio.{SchedAttr}
use kernel_programming.Sched.Policy.{Permit, sched_setscheduler}

-- What a call that starts at a runqueue may give: a fault, an error code with that runqueue, or the
-- code 0 with another one.
pub data KeepsOnError (rq : Rq) : Option (ℕ × Rq) → Type 0 where
  faults : KeepsOnError rq none
  refuses : (e : ℕ) → KeepsOnError rq (some (e, rq))
  succeeds : (rq' : Rq) → KeepsOnError rq (some (0, rq'))

keeps_step : (rq : Rq) (r : Option Rq) → KeepsOnError rq (r >>= λ rq'. some (0, rq'))
keeps_step rq none = faults
keeps_step rq (some rq') = succeeds rq'

keeps_if :
    (rq : Rq) (b : Bool) (x y : Option (ℕ × Rq))
    → KeepsOnError rq x
    → KeepsOnError rq y
    → KeepsOnError rq (if b then x else y)
keeps_if rq true x y kx ky = kx
keeps_if rq false x y kx ky = ky

-- Whatever the request, a call of `__sched_setscheduler` that gives an error code other than 0 leaves
-- every task and queue as it was.
pub sched_setscheduler-KeepsOnError :
    (ext : External) (permit : Permit) (pi_prio : Option ℤ) (rq : Rq) (p : ℕ) (attr : SchedAttr)
    (user pi : Bool)
    → KeepsOnError rq (sched_setscheduler ext permit pi_prio rq p attr user pi)
unfolding sched_setscheduler
sched_setscheduler-KeepsOnError ext permit pi_prio rq p attr user pi =
    keeps_if rq _ _ _ (refuses _) (
      keeps_if rq _ _ _ (refuses 22) (
        keeps_if rq _ _ _ (succeeds _)
          (keeps_if rq _ _ _ (refuses 1) (keeps_if rq _ _ _ (refuses 16) (keeps_step rq _)))))
