-- ===== src/Sched/Switch.antt =====
-- kernel/sched/core.c, the choice of the next task and the switch to it: `pick_next_task`,
-- `__schedule`, `scheduler_tick`, `do_sched_yield`. A retry of `pick_next_task` takes one unit of
-- fuel. The register switch, block accounting, and the wakeups for a workqueue are not modelled.
pub mod Idle
pub mod Realtime
pub mod Yield
pub mod Turns
use kernel_programming.Prelude.{
  ◌>>=◌, ◌==◌, ◌+◌, ◌%◌, ◌/◌, ◌^◌, ◌-◌, ℕ, zero, suc, Bool, Option, none, some, List, [], ◌∷◌, true,
  false, if◌then◌else◌, ◌>>=◌, ◌||◌, ◌&&◌, not,
}
use kernel_programming.Sched.{Rq, Task, set_task, SchedClass, idle_sched_class, fair_sched_class}
use kernel_programming.Sched.Class.{
  External, Picked, picked, retry, nothing, bugged, same_class, class_ops, put_prev_task, classes,
  deactivate_task, class_of,
}

-- How a call of `pick_next_task` ends: all retries used, BUG(), or a task.
pub data Choice : Type 0 where
  out_of_fuel bug : Choice
  chosen : ℕ → Rq → Choice

-- The loop `for_each_class`; `again` is what a retry goes on with.
abbrev visit : (Rq → Choice) → (Rq → Choice) → Picked × Rq → Choice
visit again next (retry, rq) = again rq
visit again next (nothing, rq) = next rq
visit again next (bugged, rq) = bug
visit again next (picked p, rq) = chosen p rq

-- The idle class always has a task.
abbrev idle_choice : Picked × Rq → Choice
idle_choice (picked p, rq) = chosen p rq
idle_choice (_, rq) = bug

unfoldable pub visit_classes : External → ℕ → (Rq → Choice) → List SchedClass → Rq → Choice
unfolding put_prev_task
visit_classes ext prev again [] rq = bug
visit_classes ext prev again (class ∷ rest) rq =
    visit again (visit_classes ext prev again rest)
      ((class_ops ext class).pick_next_task (put_prev_task ext) rq prev)

unfoldable pub pick_again : External → ℕ → ℕ → Rq → Choice
unfolding visit_classes
pick_again ext prev zero rq = out_of_fuel
pick_again ext prev (suc fuel) rq = visit_classes ext prev (pick_again ext prev fuel) classes rq

-- Whether `pick_next_task` asks the fair class only.
abbrev pub only_fair : Rq → ℕ → Bool
only_fair rq prev =
    let class = (rq.task prev).sched_class in
    (same_class class idle_sched_class || same_class class fair_sched_class)
    && rq.nr_running == rq.h_nr_running

abbrev pub pick_fair : External → ℕ → ℕ → Rq → Choice
unfolding put_prev_task pick_again
pick_fair ext fuel prev rq =
    visit (pick_again ext prev fuel)
      (λ rq'.
        idle_choice ((class_ops ext idle_sched_class).pick_next_task (put_prev_task ext) rq' prev))
      ((class_ops ext fair_sched_class).pick_next_task (put_prev_task ext) rq prev)

unfoldable pub pick_next_task : External → ℕ → Rq → ℕ → Choice
unfolding put_prev_task pick_again
pick_next_task ext fuel rq prev =
    if only_fair rq prev then pick_fair ext fuel prev rq else pick_again ext prev fuel rq

-- What `__schedule` does to the previous task before the choice: DEQUEUE_SLEEP | DEQUEUE_NOCLOCK
-- is 9.
abbrev pub sleep_prev : External → Rq → Bool → Option Rq
unfolding deactivate_task
sleep_prev ext rq preempt =
    let prev = rq.task rq.curr in
    if preempt || prev.state == 0
    then some rq
    else if ext.signal_pending_state prev.state prev
    then some (set_task rq rq.curr (record prev { state = 0 }))
    else do
      asleep ← deactivate_task ext rq rq.curr 9
      some (set_task asleep rq.curr (record (asleep.task rq.curr) { on_rq = 0 }))

-- The switch counters, unsigned long.
abbrev count_switch : Bool → Task → Task
count_switch voluntary t =
    if voluntary
    then record t { nvcsw = (t.nvcsw + 1) % 2 ^ 64 }
    else record t { nivcsw = (t.nivcsw + 1) % 2 ^ 64 }

-- From the choice on, with whether the switch counts as voluntary.
abbrev pub switch_to : ℕ → Bool → Choice → Choice
switch_to prev voluntary (chosen next rq) =
    let rq' = set_task rq prev (record (rq.task prev) { need_resched = false }) in
    let counted = set_task rq' prev (count_switch voluntary (rq'.task prev)) in
    if prev == next
    then chosen next rq'
    else chosen next (record counted { curr = next; nr_switches = (rq.nr_switches + 1) % 2 ^ 64 })
switch_to prev voluntary choice = choice

-- `__schedule`; `none` is a fault of a class.
unfoldable pub schedule : External → ℕ → Rq → Bool → Option Choice
unfolding deactivate_task pick_next_task
schedule ext fuel rq preempt = do
  let voluntary = not (preempt || (rq.task rq.curr).state == 0)
  rq' ← sleep_prev ext rq preempt
  some (switch_to rq.curr voluntary (pick_next_task ext fuel rq' rq.curr))

unfoldable pub scheduler_tick : External → Rq → Option Rq
scheduler_tick ext rq = (class_ops ext (class_of ext rq rq.curr)).task_tick rq rq.curr

-- `do_sched_yield`, to the end of its call of `schedule`.
unfoldable pub do_sched_yield : External → ℕ → Rq → Option Choice
unfolding schedule
do_sched_yield ext fuel rq = do
  rq' ← (class_ops ext (class_of ext rq rq.curr)).yield_task rq
  schedule ext fuel rq' false
