-- ===== src/Sched/Switch/Turns.antt =====
-- Time-sharing tasks that call sched_yield of kernel/sched/core.c in turn.
use kernel_programming.Prelude.{ℕ, zero, suc, List, [], ◌∷◌, Option, some, none}
use kernel_programming.Sched.{Rq}
use kernel_programming.Sched.Class.{External}
use kernel_programming.Sched.Switch.{Choice, chosen, do_sched_yield}

-- The tasks that run while each calls sched_yield, `n` times in all, and the runqueue then.
abbrev ran : ℕ → Option (List ℕ × Rq) → Option (List ℕ × Rq)
ran p none = none
ran p (some (l, rq)) = some (p ∷ l, rq)

abbrev next_turn : Option Choice → (Rq → Option (List ℕ × Rq)) → Option (List ℕ × Rq)
next_turn (some (chosen p rq)) next = next rq
next_turn _ next = none

pub turns : External → ℕ → ℕ → Rq → Option (List ℕ × Rq)
turns ext fuel zero rq = some ([], rq)
turns ext fuel (suc n) rq = ran rq.curr (next_turn (do_sched_yield ext fuel rq) (turns ext fuel n))
