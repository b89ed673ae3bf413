-- ===== src/Sched/Rt.antt =====
-- kernel/sched/rt.c, the real-time class, on one CPU and without CONFIG_RT_GROUP_SCHED: an entity is
-- a task, and a runqueue has one `rt_rq`. The lists of pushable tasks, the balancing between CPUs,
-- load tracking and statistics are not modelled. `list_del_init` takes a task from the list that it
-- is on. A priority that is no index of the array is a fault, `none`. The assertion BUG_ON of
-- `dequeue_top_rt_rq` is left out, and the WARN_ONs.
pub mod Active
pub mod Delist
pub mod Frame
use kernel_programming.Prelude.{
  ℕ, zero, suc, ◌*◌, ◌+◌, ◌-◌, ◌%◌, ◌^◌, Bool, true, false, not, List, [], ◌∷◌, ◌++◌, Option, none,
  some, ltb, leb, ◌==◌, if◌then◌else◌, ◌&&◌, ◌||◌, ◌>>=◌, remove, min,
}
use kernel_programming.Prelude.Int.{pos_part, ℤ, pos, negsuc, ltb_ℤ}
use kernel_programming.Sched.{
  Rq, RtRq, Task, update, set_task, has_flag, max_rt_prio, sched_rr, resched_curr, enqueue_wakeup,
  enqueue_head, rt_sched_class,
}
use kernel_programming.Sched.Ts.{list_del}
use kernel_programming.Sched.Class.{ClassOps, Picked, retry, nothing, bugged, picked, same_class}

-- What rt.c reads: the clock's `delta_exec` of the current task, as an s64; `def_rt_bandwidth` in
-- nanoseconds; `sched_find_first_bit`; `sched_rr_timeslice`; `jiffies`; whether RLIMIT_RTTIME of a
-- task is finite.
pub record RtEnv : Type 0 where
  pub delta_exec : Rq → ℤ
  pub bandwidth_enabled : Bool
  pub rt_period : ℕ
  pub def_runtime : ℕ
  pub find_first_bit : (ℕ → Bool) → ℕ
  pub rr_timeslice : ℕ
  pub jiffies : ℕ
  pub has_rttime : ℕ → Bool

abbrev pub runtime_inf : ℕ
runtime_inf = 2 ^ 64 - 1

-- `--x` and `x -= n` on an unsigned int.
abbrev pub sub_u32 : ℕ → ℕ → ℕ
sub_u32 x n = (x + 2 ^ 32 - n) % 2 ^ 32

abbrev pub add_u32 : ℕ → ℕ → ℕ
add_u32 x n = (x + n) % 2 ^ 32

-- An index of the array.
abbrev pub rt_index : ℤ → Option ℕ
rt_index (pos i) = if ltb i max_rt_prio then some i else none
rt_index (negsuc _) = none

-- `for (i = 0; i < MAX_RT_PRIO; i++)` of `init_rt_rq`, from the index `i` on, `n` left.
unfoldable pub init_array : ℕ → ℕ → RtRq → RtRq
init_array zero i rt = rt
init_array (suc n) i rt =
    init_array n (i + 1)
      (record rt { queue = update rt.queue i []; bitmap = update rt.bitmap i false })

unfoldable pub init_rt_rq : RtRq → RtRq
unfolding init_array
init_rt_rq rt =
    let rt' = init_array max_rt_prio 0 rt in
    record rt' {
      bitmap = update rt'.bitmap max_rt_prio true;
      highest_prio = max_rt_prio;
      rt_queued = false;
      rt_time = 0;
      rt_throttled = false;
      rt_runtime = 0;
    }

-- `add_nr_running` and `sub_nr_running` of sched.h; the overload mark of the domain is left out.
abbrev pub add_nr_running : Rq → ℕ → Rq
add_nr_running rq n = record rq { nr_running = add_u32 rq.nr_running n }

abbrev pub sub_nr_running : Rq → ℕ → Rq
sub_nr_running rq n = record rq { nr_running = sub_u32 rq.nr_running n }

unfoldable pub dequeue_top_rt_rq : Rq → Rq
dequeue_top_rt_rq rq =
    if not rq.rt.rt_queued
    then rq
    else record (sub_nr_running rq rq.rt.rt_nr_running) { rt = record rq.rt { rt_queued = false } }

unfoldable pub enqueue_top_rt_rq : Rq → Rq
enqueue_top_rt_rq rq =
    if rq.rt.rt_queued || rq.rt.rt_throttled || rq.rt.rt_nr_running == 0
    then rq
    else record (add_nr_running rq rq.rt.rt_nr_running) { rt = record rq.rt { rt_queued = true } }

abbrev pub is_rr : Task → Bool
is_rr t = t.policy == sched_rr

-- `(flags & (DEQUEUE_SAVE | DEQUEUE_MOVE)) == DEQUEUE_SAVE` gives false.
abbrev pub move_entity : ℕ → Bool
move_entity flags = not (has_flag flags 2 && not (has_flag flags 4))

abbrev pub is_empty : List ℕ → Bool
is_empty [] = true
is_empty (_ ∷ _) = false

-- The array of `__delist_rt_entity`.
unfoldable pub delist : ℕ → ℕ → RtRq → RtRq
delist p i rt =
    let queue' = list_del p rt.queue in
    record rt {
      queue = queue';
      bitmap = if is_empty (queue' i) then update rt.bitmap i false else rt.bitmap;
    }

-- `list_add` or `list_add_tail`
unfoldable pub enlist_list : Bool → ℕ → List ℕ → List ℕ
enlist_list head p l = if head then p ∷ l else l ++ p ∷ []

-- The array of `__enqueue_rt_entity`.
unfoldable pub enlist : Bool → ℕ → ℕ → RtRq → RtRq
unfolding enlist_list
enlist head p i rt = record rt {
  queue = update rt.queue i (enlist_list head p (rt.queue i));
  bitmap = update rt.bitmap i true;
}

-- With `inc_rt_prio`.
unfoldable pub inc_rt_tasks : Bool → ℕ → RtRq → RtRq
inc_rt_tasks rr prio rt = record rt {
  rt_nr_running = add_u32 rt.rt_nr_running 1;
  rr_nr_running = add_u32 rt.rr_nr_running (if rr then 1 else 0);
  highest_prio = if ltb prio rt.highest_prio then prio else rt.highest_prio;
}

module _ (env : RtEnv) where
  -- With `dec_rt_prio`.
  unfoldable pub dec_rt_tasks : Bool → ℕ → RtRq → RtRq
  dec_rt_tasks rr prio rt =
      let nr = sub_u32 rt.rt_nr_running 1 in
      record rt {
        rt_nr_running = nr;
        rr_nr_running = sub_u32 rt.rr_nr_running (if rr then 1 else 0);
        highest_prio =
            if nr == 0
            then max_rt_prio
            else if prio == rt.highest_prio
            then env.find_first_bit rt.bitmap
            else rt.highest_prio;
      }

  -- `__enqueue_rt_entity`
  unfoldable pub enqueue_entity : Rq → ℕ → ℕ → Option Rq
  unfolding enlist inc_rt_tasks
  enqueue_entity rq p flags = do
    let t = rq.task p
    let moved = move_entity flags
    i ← rt_index t.prio
    let rt = if moved then enlist (has_flag flags enqueue_head) p i rq.rt else rq.rt
    some (
        set_task (record rq { rt = inc_rt_tasks (is_rr t) i rt }) p
          (record t { rt_on_list = moved || t.rt_on_list; rt_on_rq = true }))

  -- `__dequeue_rt_entity`
  unfoldable pub dequeue_entity : Rq → ℕ → ℕ → Option Rq
  unfolding delist dec_rt_tasks
  dequeue_entity rq p flags = do
    let t = rq.task p
    let moved = move_entity flags
    i ← rt_index t.prio
    let rt = if moved then delist p i rq.rt else rq.rt
    some (
        set_task (record rq { rt = dec_rt_tasks (is_rr t) i rt }) p
          (record t { rt_on_list = not moved && t.rt_on_list; rt_on_rq = false }))

  unfoldable pub dequeue_rt_stack : Rq → ℕ → ℕ → Option Rq
  unfolding dequeue_entity dequeue_top_rt_rq
  dequeue_rt_stack rq p flags =
      let rq' = dequeue_top_rt_rq rq in
      if (rq'.task p).rt_on_rq then dequeue_entity rq' p flags else some rq'

  unfoldable pub enqueue_rt_entity : Rq → ℕ → ℕ → Option Rq
  unfolding dequeue_rt_stack enqueue_entity enqueue_top_rt_rq
  enqueue_rt_entity rq p flags = do
    rq' ← dequeue_rt_stack rq p flags
    rq'' ← enqueue_entity rq' p flags
    some (enqueue_top_rt_rq rq'')

  unfoldable pub dequeue_rt_entity : Rq → ℕ → ℕ → Option Rq
  unfolding dequeue_rt_stack enqueue_top_rt_rq
  dequeue_rt_entity rq p flags = do rq' ← dequeue_rt_stack rq p flags; some (enqueue_top_rt_rq rq')

  -- `sched_rt_runtime_exceeded`; `balance_runtime` has no other CPU to borrow from.
  unfoldable pub sched_rt_runtime_exceeded : Rq → Bool × Rq
  unfolding dequeue_top_rt_rq
  sched_rt_runtime_exceeded rq =
      let rt = rq.rt in
      if rt.rt_throttled
      then (true, rq)
      else if leb env.rt_period rt.rt_runtime
          || rt.rt_runtime == runtime_inf
          || leb rt.rt_time rt.rt_runtime
      then (false, rq)
      else if env.def_runtime == 0
      then (false, record rq { rt = record rt { rt_time = 0 } })
      else (true, dequeue_top_rt_rq (record rq { rt = record rt { rt_throttled = true } }))

  -- The end of `update_curr_rt`, for a positive `delta_exec`.
  abbrev pub account_rt : Rq → ℕ → Rq
  unfolding sched_rt_runtime_exceeded resched_curr
  account_rt rq delta =
      let rt' = record rq.rt { rt_time = (rq.rt.rt_time + delta) % 2 ^ 64 } in
      let (exceeded, rq') = sched_rt_runtime_exceeded (record rq { rt = rt' }) in
      if not env.bandwidth_enabled || rq.rt.rt_runtime == runtime_inf
      then rq
      else if exceeded
      then resched_curr rq'
      else rq'

  unfoldable pub update_curr_rt : Rq → Rq
  unfolding sched_rt_runtime_exceeded resched_curr
  update_curr_rt rq =
      let delta = pos_part (env.delta_exec rq) in
      if not (same_class (rq.task rq.curr).sched_class rt_sched_class) || delta == 0
      then rq
      else account_rt rq delta
