-- ===== src/Sched/Wake.antt =====
-- kernel/sched/core.c, the wakeup of a task and the queue of wakeups, on one CPU. A fault of a class
-- is `none`. The callback `task_woken`, which moves tasks between CPUs, the wakeup of a workqueue,
-- clocks and statistics are not modelled.
pub mod Again
pub mod Batch
use kernel_programming.Prelude.{
  ℕ, ◌+◌, ◌-◌, ◌%◌, ◌^◌, Bool, true, false, not, List, [], ◌∷◌, ◌++◌, Option, none, some, ◌==◌,
  ◌&&◌, if◌then◌else◌, ◌>>=◌, zero, suc, ◌/◌, ◌||◌,
}
use kernel_programming.Sched.{Rq, Task, set_task, update}
use kernel_programming.Sched.Class.{External, activate_task, check_preempt_curr}

-- TASK_WAKING and TASK_NORMAL of include/linux/sched.h.
abbrev pub task_waking : ℕ
task_waking = 512

abbrev pub task_normal : ℕ
task_normal = 3

-- `a & b` on the last `n` bits, as a truth value.
unfoldable pub common_bit : ℕ → ℕ → ℕ → Bool
common_bit zero a b = false
common_bit (suc n) a b = let rest = common_bit n (a / 2) (b / 2) in a % 2 == 1 && b % 2 == 1 || rest

-- A task changed in the store.
abbrev set_state : Rq → ℕ → ℕ → Rq
set_state rq p state = set_task rq p (record (rq.task p) { state = state })

module _ (ext : External) where
  unfoldable pub ttwu_activate : Rq → ℕ → ℕ → Option Rq
  unfolding activate_task
  ttwu_activate rq p en_flags = do
    rq' ← activate_task ext rq p en_flags
    some (set_task rq' p (record (rq'.task p) { on_rq = 1 }))

  unfoldable pub ttwu_do_wakeup : Rq → ℕ → ℕ → Rq
  unfolding check_preempt_curr
  ttwu_do_wakeup rq p wake_flags = set_state (check_preempt_curr ext rq p wake_flags) p 0

  -- ENQUEUE_WAKEUP | ENQUEUE_NOCLOCK is 9. `contributed` is `sched_contributes_to_load`.
  unfoldable pub ttwu_do_activate : Rq → ℕ → ℕ → Bool → Option Rq
  unfolding ttwu_activate ttwu_do_wakeup
  ttwu_do_activate rq p wake_flags contributed = do
    let less = record rq { nr_uninterruptible = (rq.nr_uninterruptible + 2 ^ 64 - 1) % 2 ^ 64 }
    rq' ← ttwu_activate (if contributed then less else rq) p 9
    some (ttwu_do_wakeup rq' p wake_flags)

  -- Whether the task was on the queue, and the runqueue.
  unfoldable pub ttwu_remote : Rq → ℕ → ℕ → Bool × Rq
  unfolding ttwu_do_wakeup
  ttwu_remote rq p wake_flags =
      if (rq.task p).on_rq == 1 then (true, ttwu_do_wakeup rq p wake_flags) else (false, rq)

  -- Whether the task was woken, and the runqueue; `ttwu_queue` finds the task on this CPU.
  unfoldable pub try_to_wake_up : Rq → ℕ → ℕ → ℕ → Option (Bool × Rq)
  unfolding ttwu_remote ttwu_do_activate
  try_to_wake_up rq p state wake_flags =
      let t = rq.task p in
      let (remote, rq') = ttwu_remote rq p wake_flags in
      let queued =
        ttwu_do_activate (set_state rq p task_waking) p wake_flags (ext.contributes_to_load t) in
      if not (common_bit 32 t.state state)
      then some (false, rq)
      else if not (t.on_rq == 0) && remote
      then some (true, rq')
      else queued >>= λ x. some (true, x)

  unfoldable pub wake_up_process : Rq → ℕ → Option (Bool × Rq)
  unfolding try_to_wake_up
  wake_up_process rq p = try_to_wake_up rq p task_normal 0

  -- The caller has the task on this CPU, and it is not the current one.
  unfoldable pub try_to_wake_up_local : Rq → ℕ → Option Rq
  unfolding ttwu_activate ttwu_do_wakeup
  try_to_wake_up_local rq p =
      if not (common_bit 32 (rq.task p).state task_normal)
      then some rq
      else if (rq.task p).on_rq == 1
      then some (ttwu_do_wakeup rq p 0)
      else do rq' ← ttwu_activate rq p 9; some (ttwu_do_wakeup rq' p 0)

  -- ENQUEUE_NOCLOCK is 8 and WF_FORK 2.
  unfoldable pub wake_up_new_task : Rq → ℕ → Option Rq
  unfolding ttwu_activate check_preempt_curr
  wake_up_new_task rq p = do
    rq' ← ttwu_activate (set_state rq p 0) p 8
    some (check_preempt_curr ext rq' p 2)

-- `struct wake_q_head` and the nodes that it links: the tasks in their order, for each task whether
-- its node is linked, and its reference count.
pub record WakeQ : Type 0 where
  pub nodes : List ℕ
  pub linked : ℕ → Bool
  pub usage : ℕ → ℕ

unfoldable pub wake_q_add : WakeQ → ℕ → WakeQ
wake_q_add q task = if q.linked task then q else record q {
  nodes = q.nodes ++ task ∷ [];
  linked = update q.linked task true;
  usage = update q.usage task (q.usage task + 1);
}

-- The round of `wake_up_q` for a task: it may be added again before it is woken.
abbrev pub unlink : WakeQ → ℕ → List ℕ → WakeQ
unlink q task rest = record q {
  nodes = rest;
  linked = update q.linked task false;
  usage = update q.usage task (q.usage task - 1);
}

-- The loop of `wake_up_q` over the nodes.
unfoldable pub wake_nodes : External → List ℕ → WakeQ → Rq → Option (WakeQ × Rq)
unfolding wake_up_process
wake_nodes ext [] q rq = some (q, rq)
wake_nodes ext (task ∷ rest) q rq = do
  (_, rq') ← wake_up_process ext rq task
  wake_nodes ext rest (unlink q task rest) rq'

unfoldable pub wake_up_q : External → WakeQ → Rq → Option (WakeQ × Rq)
unfolding wake_nodes
wake_up_q ext q rq = wake_nodes ext q.nodes q rq
