-- ===== src/Sched/Ts.antt =====
-- kernel/sched/ts.c, the time-sharing scheduling class: forty queues, the best level last.
-- An access outside the forty queues is a fault, `none`. The printk calls change nothing.
pub mod Prio
pub mod Invariant
pub mod Steps
pub mod Tick
pub mod Pick
pub mod Init
pub mod Inversion
pub mod Decay
pub mod Reach
use kernel_programming.Prelude.{
  ℕ, zero, suc, ◌+◌, ◌-◌, ◌%◌, ◌^◌, not, List, [], ◌∷◌, ◌++◌, Option, none, some, ltb, ◌==◌,
  if◌then◌else◌, remove,
}
use kernel_programming.Prelude.Int.{ℤ, pos, negsuc, ◌-ℤ◌, ltb_ℤ}
use kernel_programming.Sched.{
  Rq, update, set_task, has_flag, enqueue_wakeup, max_ts_prio, sched_ts, resched_curr,
}

-- `139 - prio`
abbrev pub level_of : ℤ → ℤ
level_of prio = pos 139 -ℤ prio

-- The new level of a task at the level `prio`, when its time slice expires.
abbrev pub expire_level : ℕ → ℕ
expire_level prio = if ltb prio 10 then 0 else prio - 10

-- The new level when it wakes.
abbrev pub sleep_level : ℕ → ℕ
sleep_level prio =
    if ltb prio 10
    then 30
    else if ltb prio 20
    then 31
    else if ltb prio 25
    then prio + 12
    else if ltb prio 27
    then prio + 11
    else if prio == 27
    then 37
    else if ltb prio 30
    then 38
    else 39

abbrev pub new_level : ℕ → ℕ → ℕ
new_level prio type = if type == 0 then expire_level prio else sleep_level prio

-- A level outside 0..39 is reported and gives 139.
abbrev pub new_prio_of : ℤ → ℕ → ℤ
new_prio_of (negsuc _) type = pos 139
new_prio_of (pos prio) type = if ltb 39 prio then pos 139 else pos 139 -ℤ pos (new_level prio type)

unfoldable pub get_new_prio : ℤ → ℕ → ℤ
unfolding ◌-ℤ◌
get_new_prio prio type = new_prio_of (level_of prio) type

abbrev pub ticks_of : ℤ → ℕ
ticks_of (negsuc _) = 0
ticks_of (pos prio) =
    if ltb prio 10
    then 16
    else if ltb prio 20
    then 12
    else if ltb prio 30
    then 8
    else if ltb prio 40
    then 4
    else 0

unfoldable pub get_num_ticks : ℤ → ℕ
unfolding ◌-ℤ◌
get_num_ticks prio = ticks_of (level_of prio)

-- for (i = i; i < i + n; i++) INIT_LIST_HEAD(queue + i)
unfoldable pub init_queues : ℕ → ℕ → (ℕ → List ℕ) → ℕ → List ℕ
init_queues zero i queue = queue
init_queues (suc n) i queue = init_queues n (i + 1) (update queue i [])

unfoldable pub init_ts_rq : (ℕ → List ℕ) → ℕ → List ℕ
unfolding init_queues
init_ts_rq queue = init_queues max_ts_prio 0 queue

-- `list_del` of an entry that is on a list: it leaves the list. The pointers of an entry that is on
-- none are poisoned, and the source faults; here nothing changes, so what is proved of a task speaks
-- of the source when the task is queued.
abbrev pub list_del : ℕ → (ℕ → List ℕ) → ℕ → List ℕ
list_del p queue i = remove p (queue i)

-- `list_add_tail(&p->ts.list, queue + idx)`
abbrev pub list_add_tail : ℕ → ℤ → (ℕ → List ℕ) → Option (ℕ → List ℕ)
list_add_tail p (negsuc _) queue = none
list_add_tail p (pos idx) queue =
    if ltb idx max_ts_prio then some (update queue idx (queue idx ++ p ∷ [])) else none

abbrev pub list_move_tail : ℕ → ℤ → (ℕ → List ℕ) → Option (ℕ → List ℕ)
list_move_tail p idx queue = list_add_tail p idx (list_del p queue)

abbrev pub with_queue : Rq → Option (ℕ → List ℕ) → Option Rq
with_queue rq none = none
with_queue rq (some queue) = some (record rq { ts = queue })

-- The index is computed before the wakeup changes the priority.
unfoldable pub enqueue_task_ts : Rq → ℕ → ℕ → Option Rq
unfolding ◌-ℤ◌
enqueue_task_ts rq p flags =
    let t = rq.task p in
    let idx = level_of t.prio in
    let rq' =
      if has_flag flags enqueue_wakeup
      then set_task rq p (record t { prio = get_new_prio t.prio 1 })
      else rq in
    with_queue rq' (list_add_tail p idx rq'.ts)

unfoldable pub dequeue_task_ts : Rq → ℕ → ℕ → Rq
dequeue_task_ts rq p flags = record rq { ts = list_del p rq.ts }

unfoldable pub yield_task_ts : Rq → Option Rq
unfolding ◌-ℤ◌
yield_task_ts rq = with_queue rq (list_move_tail rq.curr (level_of (rq.task rq.curr).prio) rq.ts)

unfoldable pub check_preempt_curr_ts : Rq → ℕ → ℕ → Rq
check_preempt_curr_ts rq p flags =
    if ltb_ℤ (rq.task p).prio (rq.task rq.curr).prio then resched_curr rq else rq

-- The loop of `pick_next_task_ts` over the levels `n - 1` down to 0, to the first entry found.
unfoldable pub first_entry : (ℕ → List ℕ) → ℕ → Option ℕ
first_entry queue zero = none
first_entry queue (suc i) = elim (queue i) [ [] ↦ first_entry queue i | p ∷ _ ↦ some p ]

-- `put_prev_task` calls the class of the previous task; the task picked stays on its queue.
unfoldable pub pick_next_task_ts : (Rq → ℕ → Rq) → Rq → ℕ → Option ℕ × Rq
pick_next_task_ts put_prev_task rq prev = elim (first_entry rq.ts max_ts_prio) [
  | none ↦ (none, rq)
  | some p ↦ (some p, put_prev_task rq prev)
]

abbrev pub put_prev_task_ts : Rq → ℕ → Rq
put_prev_task_ts rq p = rq

abbrev pub set_curr_task_ts : Rq → Rq
set_curr_task_ts rq = rq

-- `--p->ts.time_slice` on an unsigned int.
abbrev pub dec_slice : ℕ → ℕ
dec_slice slice = (slice + 2 ^ 32 - 1) % 2 ^ 32

unfoldable pub task_tick_ts : Rq → ℕ → Option Rq
unfolding ◌-ℤ◌
task_tick_ts rq p =
    let t = rq.task p in
    let slice = dec_slice t.time_slice in
    let prio = get_new_prio t.prio 0 in
    let expired = set_task rq p (record t { prio = prio; time_slice = get_num_ticks prio }) in
    if not (t.policy == sched_ts)
    then some rq
    else if not (slice == 0)
    then some (set_task rq p (record t { time_slice = slice }))
    else elim (list_move_tail p (level_of prio) rq.ts) [
      | none ↦ none
      | some queue ↦ some (resched_curr (record expired { ts = queue }))
    ]

unfoldable pub get_rr_interval_ts : Rq → ℕ → ℕ
get_rr_interval_ts rq p = get_num_ticks (rq.task p).prio
