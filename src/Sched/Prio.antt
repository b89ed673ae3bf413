-- ===== src/Sched/Prio.antt =====
-- kernel/sched/core.c, what it computes for one task: its priority, its load weight, its class, and
-- the task that fork makes. `scale_load`, `reweight_task` and the `task_fork` of a class are fields
-- of `External`; the deadline parameters, the clocks and the lists of a new task are not modelled.
pub mod Weight
pub mod Classify
pub mod Fork
use kernel_programming.Prelude.{
  ◌||◌, if◌then◌else◌, ◌>>=◌, ℕ, Bool, List, Option, some, false, ◌∷◌, get_elem?, [], none, ◌&&◌,
  true,
}
use kernel_programming.Prelude.Int.{ℤ, pos, negsuc, ◌+ℤ◌, ◌-ℤ◌, ltb_ℤ}
use kernel_programming.Sched.{
  Task, SchedClass, sched_normal, dl_prio, rt_prio, idle_policy, fair_policy, dl_policy, rt_policy,
  dl_sched_class, rt_sched_class, ts_policy, fair_sched_class, ts_sched_class,
}
use kernel_programming.Sched.Class.{External, same_class}

abbrev pub sched_prio_to_weight : List ℕ
sched_prio_to_weight =
    88761 ∷ 71755 ∷ 56483 ∷ 46273 ∷ 36291 ∷ 29154 ∷ 23254 ∷ 18705 ∷ 14949 ∷ 11916 ∷ 9548 ∷ 7620
    ∷ 6100 ∷ 4904 ∷ 3906 ∷ 3121 ∷ 2501 ∷ 1991 ∷ 1586 ∷ 1277 ∷ 1024 ∷ 820 ∷ 655 ∷ 526 ∷ 423 ∷ 335
    ∷ 272 ∷ 215 ∷ 172 ∷ 137 ∷ 110 ∷ 87 ∷ 70 ∷ 56 ∷ 45 ∷ 36 ∷ 29 ∷ 23 ∷ 18 ∷ 15 ∷ []

abbrev pub sched_prio_to_wmult : List ℕ
sched_prio_to_wmult =
    48388 ∷ 59856 ∷ 76040 ∷ 92818 ∷ 118348 ∷ 147320 ∷ 184698 ∷ 229616 ∷ 287308 ∷ 360437 ∷ 449829
    ∷ 563644 ∷ 704093 ∷ 875809 ∷ 1099582 ∷ 1376151 ∷ 1717300 ∷ 2157191 ∷ 2708050 ∷ 3363326 ∷ 4194304
    ∷ 5237765 ∷ 6557202 ∷ 8165337 ∷ 10153587 ∷ 12820798 ∷ 15790321 ∷ 19976592 ∷ 24970740 ∷ 31350126
    ∷ 39045157 ∷ 49367440 ∷ 61356676 ∷ 76695844 ∷ 95443717 ∷ 119304647 ∷ 148102320 ∷ 186737708
    ∷ 238609294 ∷ 286331153 ∷ []

-- What these functions read of `struct sched_attr`; the policy -1 is `none`.
pub record SchedAttr : Type 0 where
  pub sched_policy : Option ℕ
  pub sched_flags : ℕ
  pub sched_nice : ℤ
  pub sched_priority : ℕ

abbrev pub nice_to_prio : ℤ → ℤ
unfolding ◌+ℤ◌
nice_to_prio nice = nice +ℤ pos 120

abbrev pub task_nice : Task → ℤ
unfolding ◌-ℤ◌
task_nice t = t.static_prio -ℤ pos 120

unfoldable pub normal_prio : Task → ℤ
unfolding ◌-ℤ◌
normal_prio t =
    if dl_policy t.policy
    then negsuc 0
    else if rt_policy t.policy
    then pos 99 -ℤ pos t.rt_priority
    else t.static_prio

-- The task with `normal_prio` set, and the priority returned.
unfoldable pub effective_prio : Task → Task × ℤ
unfolding normal_prio
effective_prio t =
    let t' = record t { normal_prio = normal_prio t } in
    (t', if rt_prio t.prio then t.prio else t'.normal_prio)

abbrev pub task_prio : Task → ℤ
unfolding ◌-ℤ◌
task_prio t = t.prio -ℤ pos 100

abbrev min_ℤ : ℤ → ℤ → ℤ
min_ℤ a b = if ltb_ℤ a b then a else b

-- `__rt_effective_prio`, from the priority of the top waiter, when there is one.
abbrev pub rt_effective_prio : Option ℤ → ℤ → ℤ
rt_effective_prio none prio = prio
rt_effective_prio (some pi_prio) prio = min_ℤ prio pi_prio

abbrev pub class_for : ℤ → ℕ → SchedClass
class_for prio policy =
    if dl_prio prio
    then dl_sched_class
    else if rt_prio prio
    then rt_sched_class
    else if ts_policy policy
    then ts_sched_class
    else fair_sched_class

abbrev pub table_weights : External → Task → Option ℕ → Option ℕ → Option Task
table_weights ext t (some weight) (some inv_weight) =
    some (record t { weight = ext.scale_load weight; inv_weight = inv_weight })
table_weights ext t _ _ = none

abbrev pub weights_at : External → Task → ℤ → Option Task
weights_at ext t (pos prio) =
    table_weights ext t (get_elem? sched_prio_to_weight prio) (get_elem? sched_prio_to_wmult prio)
weights_at ext t (negsuc _) = none

-- An index outside the tables is a fault.
unfoldable pub set_load_weight : External → Task → Bool → Option Task
unfolding ◌-ℤ◌
set_load_weight ext t update_load =
    let prio = t.static_prio -ℤ pos 100 in
    if idle_policy t.policy
    then some (record t { weight = ext.scale_load 3; inv_weight = 1431655765 })
    else if update_load && same_class t.sched_class fair_sched_class
    then some (ext.reweight_task t prio)
    else weights_at ext t prio

abbrev pub policy_or : Option ℕ → ℕ → ℕ
policy_or none policy = policy
policy_or (some policy) old = policy

-- `__setscheduler_params`
unfoldable pub setscheduler_params : External → Task → SchedAttr → Option Task
unfolding normal_prio set_load_weight ◌+ℤ◌
setscheduler_params ext t attr =
    let policy = policy_or attr.sched_policy t.policy in
    let nice = if fair_policy policy then nice_to_prio attr.sched_nice else t.static_prio in
    let t' = record t { policy = policy; static_prio = nice; rt_priority = attr.sched_priority } in
    set_load_weight ext (record t' { normal_prio = normal_prio t' }) true

-- `__setscheduler`; `pi_prio` is the priority of the top waiter of the task.
unfoldable pub setscheduler : External → Option ℤ → Task → SchedAttr → Bool → Option Task
unfolding setscheduler_params normal_prio
setscheduler ext pi_prio t attr keep_boost = do
  t' ← setscheduler_params ext t attr
  let normal = normal_prio t'
  let prio = if keep_boost then rt_effective_prio pi_prio normal else normal
  some (record t' { prio = prio; sched_class = class_for prio t'.policy })

-- `__sched_fork`: the first slice is 12 ticks.
unfoldable pub sched_fork_init : External → Task → Task
sched_fork_init ext t = record t {
  on_rq = 0;
  time_slice = 12;
  rt_timeout = 0;
  rt_time_slice = ext.sched_rr_timeslice;
  rt_on_rq = false;
  rt_on_list = false;
}

-- What `sched_reset_on_fork` does to the child.
abbrev pub reset_child : External → Task → Option Task
unfolding set_load_weight ◌-ℤ◌
reset_child ext t =
    let normal = record t { policy = sched_normal; static_prio = pos 120; rt_priority = 0 } in
    let not_nice = record t { static_prio = pos 120 } in
    let t' =
      if dl_policy t.policy || rt_policy t.policy
      then normal
      else if ltb_ℤ (task_nice t) (pos 0)
      then not_nice
      else t in
    do
      t'' ←
          set_load_weight ext (record t' { prio = t'.static_prio; normal_prio = t'.static_prio })
            false
      some (record t'' { sched_reset_on_fork = false })

pub data ForkResult : Type 0 where
  eagain forked : ForkResult

abbrev finish_fork : External → Task → ForkResult × Task
finish_fork ext t =
    let t' = record t { sched_class = class_for t.prio t.policy } in
    if dl_prio t.prio then (eagain, t) else (forked, ext.task_fork t'.sched_class t')

-- `t` is the copy of the parent, and `current_prio` the `normal_prio` of the parent. TASK_NEW is
-- 2048.
unfoldable pub sched_fork : External → ℤ → Task → Option (ForkResult × Task)
unfolding sched_fork_init set_load_weight ◌-ℤ◌
sched_fork ext current_prio t =
    let child = record (sched_fork_init ext t) { state = 2048; prio = current_prio } in
    do
      child' ← if child.sched_reset_on_fork then reset_child ext child else some child
      some (finish_fork ext child')
