-- ===== src/Sched/Change.antt =====
-- kernel/sched/core.c, the calls that change the priority of a task that may be queued or running:
-- `rt_mutex_setprio` and `set_user_nice`. Locks and clocks are not modelled.
use kernel_programming.Prelude.Int.{ℤ, ◌-ℤ◌, ◌+ℤ◌, negsuc, ltb_ℤ, pos}
use kernel_programming.Sched.{
  Rq, Task, resched_curr, set_task, dl_prio, dl_policy, rt_prio, rt_policy, dl_sched_class,
  rt_sched_class, fair_sched_class,
}
use kernel_programming.Prelude.{
  ◌==◌, ◌+◌, ℕ, Bool, Option, none, some, true, false, if◌then◌else◌, ◌>>=◌, ◌||◌, ◌&&◌, not, ℕ,
  Option, Bool,
}
use kernel_programming.Sched.Class.{
  External, dequeue_task, enqueue_task, check_class_changed, set_curr_task, put_prev_task,
}
use kernel_programming.Sched.Prio.{
  rt_effective_prio, set_load_weight, effective_prio, task_nice, nice_to_prio,
}

-- `task_on_rq_queued` and `task_current`
abbrev pub is_queued : Rq → ℕ → Bool
is_queued rq p = (rq.task p).on_rq == 1

abbrev pub is_running : Rq → ℕ → Bool
is_running rq p = rq.curr == p

abbrev pub same_ℤ : ℤ → ℤ → Bool
same_ℤ a b = not (ltb_ℤ a b) && not (ltb_ℤ b a)

abbrev pub same_option : Option ℕ → Option ℕ → Bool
same_option none none = true
same_option (some a) (some b) = a == b
same_option _ _ = false

-- The flags as far as the branch `dl_prio(prio)` or `oldprio < prio` adds to them, and the task.
abbrev pub boost_task : External → Option Task → Task → ℤ → ℕ → ℕ × Task
boost_task ext pi_task t prio flags =
    let boosted =
      not (dl_prio t.normal_prio)
      || elim pi_task [ none ↦ false | some pi ↦ dl_prio pi.prio && ext.dl_entity_preempt pi t ] in
    let unboosted = if dl_prio t.prio then false else t.dl_boosted in
    let timeout = if rt_prio t.prio then 0 else t.rt_timeout in
    if dl_prio prio
    then (
      if boosted then flags + 32 else flags,
      record t { dl_boosted = boosted; sched_class = dl_sched_class; prio = prio },
    )
    else if rt_prio prio
    then (
      if ltb_ℤ t.prio prio then flags + 16 else flags,
      record t { dl_boosted = unboosted; sched_class = rt_sched_class; prio = prio },
    )
    else (
      flags,
      record t {
        dl_boosted = unboosted;
        rt_timeout = timeout;
        sched_class = fair_sched_class;
        prio = prio;
      },
    )

abbrev pub prio_or : Rq → Option ℕ → Option ℤ
prio_or rq none = none
prio_or rq (some q) = some (rq.task q).prio

abbrev pub task_or : Rq → Option ℕ → Option Task
task_or rq none = none
task_or rq (some q) = some (rq.task q)

-- Put the changed task back: `enqueue_task`, `set_curr_task`, `check_class_changed`.
abbrev pub put_back : External → Rq → ℕ → Bool → Bool → ℕ → Option Rq
put_back ext rq p queued running flags = do
  rq' ← if queued then enqueue_task ext rq p flags else some rq
  some (if running then set_curr_task ext rq' p else rq')

-- Take it off: `dequeue_task`, `put_prev_task`.
abbrev pub take_off : External → Rq → ℕ → Bool → Bool → ℕ → Option Rq
take_off ext rq p queued running flags = do
  rq' ← if queued then dequeue_task ext rq p flags else some rq
  some (if running then put_prev_task ext rq' p else rq')

-- SAVE, MOVE and NOCLOCK are 2, 4 and 8.
abbrev pub change_prio : External → Rq → ℕ → Option ℕ → ℤ → Option Rq
unfolding check_class_changed enqueue_task set_curr_task dequeue_task put_prev_task
change_prio ext rq p pi_task prio =
    let old = rq.task p in
    let flags = if same_ℤ old.prio prio then 10 else 14 in
    let queued = is_queued rq p in
    let running = is_running rq p in
    do
      off ← take_off ext rq p queued running flags
      let change = boost_task ext (task_or off pi_task) (off.task p) prio flags
      on ← put_back ext (set_task off p change.1) p queued running change.0
      some (check_class_changed ext on p old.sched_class old.prio)

unfoldable pub rt_mutex_setprio : External → Rq → ℕ → Option ℕ → Option Rq
unfolding check_class_changed enqueue_task set_curr_task dequeue_task put_prev_task
rt_mutex_setprio ext rq p pi_task =
    let t = rq.task p in
    let prio = rt_effective_prio (prio_or rq pi_task) t.normal_prio in
    let rq' = set_task rq p (record t { pi_top_task = pi_task }) in
    let same = same_ℤ prio t.prio && not (dl_prio prio) in
    if same_option t.pi_top_task pi_task && same
    then some rq
    else if same || p == rq.idle
    then some rq'
    else change_prio ext rq' p pi_task prio

-- `task_has_dl_policy(p) || task_has_rt_policy(p)`
abbrev pub is_fixed : Task → Bool
is_fixed t = dl_policy t.policy || rt_policy t.policy

-- RESTORE | NOCLOCK is 10. On one CPU `task_running` is `task_current`.
abbrev pub renice_queued : External → Rq → ℕ → ℤ → Bool → Option Rq
unfolding enqueue_task resched_curr
renice_queued ext rq p old_prio queued =
    let prio = (rq.task p).prio in
    if not queued then some rq else do
      rq' ← enqueue_task ext rq p 10
      some (
          if ltb_ℤ prio old_prio || (ltb_ℤ old_prio prio && is_running rq' p)
          then resched_curr rq'
          else rq')

unfoldable pub set_user_nice : External → Rq → ℕ → ℤ → Option Rq
unfolding enqueue_task set_curr_task dequeue_task put_prev_task resched_curr set_load_weight
    effective_prio ◌+ℤ◌ ◌-ℤ◌
set_user_nice ext rq p nice =
    let t = rq.task p in
    let queued = is_queued rq p in
    let running = is_running rq p in
    if same_ℤ (task_nice t) nice || ltb_ℤ nice (negsuc 19) || ltb_ℤ (pos 19) nice
    then some rq
    else if is_fixed t
    then some (set_task rq p (record t { static_prio = nice_to_prio nice }))
    else do
      off ← take_off ext rq p queued running 10
      t' ← set_load_weight ext (record (off.task p) { static_prio = nice_to_prio nice }) true
      let result = effective_prio t'
      rq' ←
          renice_queued ext (set_task off p (record result.0 { prio = result.1 })) p t'.prio queued
      some (if running then set_curr_task ext rq' p else rq')
