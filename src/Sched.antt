-- ===== src/Sched.antt =====
-- The data of HW5-scheduler: struct task_struct, struct rq, struct ts_rq and struct rt_rq
-- (include/linux/sched.h, kernel/sched/sched.h), the policies, and the priority constants.
-- A task_struct pointer is a number, and `Rq.task` is the store that it points into. A list_head
-- queue is the list of its entries. MAX_RT_PRIO = 100, MAX_DL_PRIO = 0 and the nice range are the
-- documented values of linux/sched/prio.h, which the repository does not hold.
pub mod Frame
pub mod Ts
pub mod Class
pub mod Prio
pub mod Change
pub mod Policy
pub mod Switch
pub mod Wake
pub mod Rt
pub mod RtClass
pub mod Share
pub mod Bandwidth
pub mod Calls
mod Tests
use kernel_programming.Prelude.{
  ℕ, ◌+◌, ◌-◌, ◌/◌, ◌%◌, ◌≤◌, Bool, ◌||◌, List, Option, ◌==◌, if◌then◌else◌, true,
}
use kernel_programming.Prelude.Int.{ℤ, pos, negsuc, ◌+ℤ◌, ◌-ℤ◌, ltb_ℤ}

-- The scheduling classes, highest first.
pub data SchedClass : Type 0 where
  stop_sched_class dl_sched_class rt_sched_class : SchedClass
  ts_sched_class fair_sched_class idle_sched_class : SchedClass

pub record Task : Type 0 where
  pub policy : ℕ
  pub prio : ℤ
  pub static_prio : ℤ
  pub normal_prio : ℤ
  pub rt_priority : ℕ
  pub sched_class : SchedClass
  pub state : ℕ
  pub on_rq : ℕ
  pub need_resched : Bool
  pub sched_reset_on_fork : Bool
  -- `p->ts.time_slice`, an unsigned int
  pub time_slice : ℕ
  -- `p->rt`
  pub rt_timeout : ℕ
  pub watchdog_stamp : ℕ
  pub rt_time_slice : ℕ
  pub rt_on_rq : Bool
  pub rt_on_list : Bool
  -- `p->se.load`
  pub weight : ℕ
  pub inv_weight : ℕ
  pub pi_top_task : Option ℕ
  pub dl_boosted : Bool
  -- the switch counters, unsigned long
  pub nvcsw : ℕ
  pub nivcsw : ℕ

-- `struct rt_rq`; the bitmap has a bit for each queue and the delimiter at 100.
pub record RtRq : Type 0 where
  pub queue : ℕ → List ℕ
  pub bitmap : ℕ → Bool
  pub rt_nr_running : ℕ
  pub rr_nr_running : ℕ
  pub highest_prio : ℕ
  pub rt_queued : Bool
  pub rt_throttled : Bool
  pub rt_time : ℕ
  pub rt_runtime : ℕ

-- `ts` is `struct ts_rq`: the lists at the indices below 40 exist.
pub record Rq : Type 0 where
  pub curr : ℕ
  pub idle : ℕ
  pub stop : Option ℕ
  pub nr_running : ℕ
  pub nr_uninterruptible : ℕ
  pub nr_switches : ℕ
  pub h_nr_running : ℕ
  pub dl_nr_running : ℕ
  pub ts : ℕ → List ℕ
  pub rt : RtRq
  pub task : ℕ → Task

-- A function changed at one argument.
abbrev pub update {ℓ} : {A : Type ℓ} → (ℕ → A) → ℕ → A → ℕ → A
update f p v q = if p == q then v else f q

abbrev pub set_task : Rq → ℕ → Task → Rq
set_task rq p t = record rq { task = update rq.task p t }

-- `flags & k`, for `k` a power of two.
abbrev pub has_flag : ℕ → ℕ → Bool
has_flag flags k = flags / k % 2 == 1

abbrev pub sched_normal : ℕ
sched_normal = 0

abbrev pub sched_fifo : ℕ
sched_fifo = 1

abbrev pub sched_rr : ℕ
sched_rr = 2

abbrev pub sched_batch : ℕ
sched_batch = 3

abbrev pub sched_idle : ℕ
sched_idle = 5

abbrev pub sched_deadline : ℕ
sched_deadline = 6

abbrev pub sched_ts : ℕ
sched_ts = 10

abbrev pub enqueue_wakeup : ℕ
enqueue_wakeup = 1

abbrev pub enqueue_restore : ℕ
enqueue_restore = 2

abbrev pub enqueue_move : ℕ
enqueue_move = 4

abbrev pub enqueue_noclock : ℕ
enqueue_noclock = 8

abbrev pub enqueue_head : ℕ
enqueue_head = 16

abbrev pub max_ts_prio : ℕ
max_ts_prio = 40

abbrev pub max_rt_prio : ℕ
max_rt_prio = 100

abbrev pub idle_policy : ℕ → Bool
idle_policy policy = policy == sched_idle

abbrev pub fair_policy : ℕ → Bool
fair_policy policy = policy == sched_normal || policy == sched_batch

abbrev pub rt_policy : ℕ → Bool
rt_policy policy = policy == sched_fifo || policy == sched_rr

abbrev pub dl_policy : ℕ → Bool
dl_policy policy = policy == sched_deadline

abbrev pub ts_policy : ℕ → Bool
ts_policy policy = policy == sched_ts

abbrev pub valid_policy : ℕ → Bool
valid_policy policy =
    idle_policy policy
    || fair_policy policy
    || rt_policy policy
    || dl_policy policy
    || ts_policy policy

-- `rt_prio` and `dl_prio` of the kernel headers.
abbrev pub rt_prio : ℤ → Bool
rt_prio prio = ltb_ℤ prio (pos 100)

abbrev pub dl_prio : ℤ → Bool
dl_prio prio = ltb_ℤ prio (pos 0)

-- `resched_curr` on the one CPU that ts.c assumes: the current task gets TIF_NEED_RESCHED.
unfoldable pub resched_curr : Rq → Rq
resched_curr rq =
    let curr = rq.task rq.curr in
    if curr.need_resched then rq else set_task rq rq.curr (record curr { need_resched = true })
