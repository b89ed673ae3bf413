-- ===== src/Sched/Ts/Prio.antt =====
-- The priority and time-slice tables of kernel/sched/ts.c: `get_new_prio` and `get_num_ticks`.
use kernel_programming.Prelude.{ℕ, zero, suc, ◌+◌, ◌-◌, ◌*◌, ◌/◌, ◌<◌, ◌≡◌, ◌≢◌, ◌⊎◌, arith, min}
use kernel_programming.Prelude.Int.{ℤ, pos, negsuc, pos_part, ◌≤ℤ◌}
use kernel_programming.Sched.Ts.{get_new_prio, get_num_ticks}

-- The priorities that the forty queues stand for.
abbrev pub IsTsPrio : ℤ → Type 0
IsTsPrio prio = (pos 100 ≤ℤ prio) × (prio ≤ℤ pos 139)

-- Whatever the old priority and the event, the new priority is one of the forty.
pub get_new_prio-IsTsPrio : (prio : ℤ) (type : ℕ) → IsTsPrio (get_new_prio prio type)
unfolding get_new_prio
get_new_prio-IsTsPrio prio type = ground arith

-- A task with one of the forty priorities whose time slice expires goes ten levels down, to level 0
-- at most.
pub get_new_prio-expire :
    (prio : ℤ) → IsTsPrio prio → get_new_prio prio 0 ≡ pos (min (pos_part prio + 10) 139)
unfolding get_new_prio
get_new_prio-expire (pos n) h = ground arith
get_new_prio-expire (negsuc n) h = ground arith

-- A task with one of the forty priorities that wakes gets one of the ten best priorities, and one
-- strictly better than its old priority, unless that is the best, which it keeps.
pub get_new_prio-wakeup :
    (prio : ℤ) (type : ℕ)
    → type ≢ 0
    → IsTsPrio prio
    → (get_new_prio prio type ≤ℤ pos 109)
      × ((pos_part (get_new_prio prio type) < pos_part prio)
          ⊎ ((prio ≡ pos 100) × (get_new_prio prio type ≡ pos 100)))
unfolding get_new_prio
get_new_prio-wakeup (pos n) type ne h = (ground arith, ground arith)
get_new_prio-wakeup (negsuc n) type ne h = (ground arith, ground arith)

-- Neither event lets a task overtake one with a better or equal priority: on the forty priorities
-- the new priority is monotone in the old one.
pub get_new_prio_mono :
    (a b : ℤ) (type : ℕ)
    → IsTsPrio a
    → IsTsPrio b
    → a ≤ℤ b
    → get_new_prio a type ≤ℤ get_new_prio b type
unfolding get_new_prio
get_new_prio_mono (pos m) (pos n) type ha hb h = ground arith
get_new_prio_mono (pos m) (negsuc n) type ha hb h = ground arith
get_new_prio_mono (negsuc m) b type ha hb h = ground arith

-- The time slice is 4 ticks for the ten best priorities, and 4 more for each further ten; a
-- priority outside the forty has none.
pub get_num_ticks_lem :
    (prio : ℤ)
    → (IsTsPrio prio → get_num_ticks prio ≡ 4 * ((pos_part prio - 100) / 10 + 1))
      × ((prio ≤ℤ pos 99) ⊎ (pos 140 ≤ℤ prio) → get_num_ticks prio ≡ 0)
unfolding get_num_ticks
get_num_ticks_lem (pos n) = (λ h. ground arith, λ h. ground arith)
get_num_ticks_lem (negsuc n) = (λ h. ground arith, λ h. ground arith)

-- The priority after `n` expired time slices.
abbrev pub expirations : ℕ → ℤ → ℤ
expirations zero prio = prio
expirations (suc n) prio = expirations n (get_new_prio prio 0)

-- A task that keeps using up its time slice is at the lowest of the forty priorities after four of
-- them, from any priority.
pub expirations-four : (prio : ℤ) → IsTsPrio prio → expirations 4 prio ≡ pos 139
unfolding get_new_prio
expirations-four (pos n) h = ground arith
expirations-four (negsuc n) h = ground arith
