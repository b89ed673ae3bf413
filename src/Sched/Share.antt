-- ===== src/Sched/Share.antt =====
-- kernel/sched/rt.c, the runtime that the CPUs of a domain lend each other: `do_balance_runtime`,
-- `__disable_runtime`, `__enable_runtime`, and the parts of `rq_online_rt` and `rq_offline_rt` that
-- call them. A u64 or s64 is its value modulo 2 ^ 64. `span` is the CPUs of the domain in the order
-- of `for_each_cpu`; the store of runqueues is a function of the CPU.
pub mod Sums
pub mod Balance
pub mod Reclaimed
pub mod Reclaim
pub mod Domain
pub mod Offline
pub mod Online
pub mod Reach
use kernel_programming.Prelude.{
  ℕ, ◌+◌, ◌-◌, ◌%◌, ◌/◌, ◌^◌, Bool, true, false, not, ◌&&◌, ◌||◌, List, [], ◌∷◌, Option, none, some,
  ltb, leb, ◌==◌, if◌then◌else◌, length,
}
use kernel_programming.Sched.{Rq, update}
use kernel_programming.Sched.Rt.{RtEnv, runtime_inf}
use kernel_programming.Sched.RtClass.{sched_rt_rq_enqueue}

abbrev pub Cpus : Type 0
Cpus = ℕ → Rq

abbrev pub add_u64 : ℕ → ℕ → ℕ
add_u64 a b = (a + b) % 2 ^ 64

abbrev pub sub_u64 : ℕ → ℕ → ℕ
sub_u64 a b = (a + 2 ^ 64 - b) % 2 ^ 64

-- `x > 0` and `min_t(s64, a, b)` on an s64.
abbrev pub is_positive : ℕ → Bool
is_positive x = ltb 0 x && ltb x (2 ^ 63)

abbrev pub min_s64 : ℕ → ℕ → ℕ
min_s64 a b = if ltb ((a + 2 ^ 63) % 2 ^ 64) ((b + 2 ^ 63) % 2 ^ 64) then a else b

unfoldable pub runtime : Cpus → ℕ → ℕ
runtime cpus i = (cpus i).rt.rt_runtime

unfoldable pub time : Cpus → ℕ → ℕ
time cpus i = (cpus i).rt.rt_time

unfoldable pub set_runtime : Cpus → ℕ → ℕ → Cpus
set_runtime cpus i r =
    update cpus i (record (cpus i) { rt = record (cpus i).rt { rt_runtime = r } })

module _ (env : RtEnv) (span : List ℕ) where
  -- The part of the neighbour's spare time that is taken.
  abbrev pub spare_part : ℕ → ℕ → ℕ
  spare_part r diff =
      let part = diff / length span in
      if ltb env.rt_period (add_u64 r part) then sub_u64 env.rt_period r else part

  -- One neighbour; the test is whether the loop ends.
  unfoldable pub borrow_from : ℕ → ℕ → Cpus → Bool × Cpus
  unfolding runtime time set_runtime
  borrow_from this i cpus =
      let diff = sub_u64 (runtime cpus i) (time cpus i) in
      let part = spare_part (runtime cpus this) diff in
      let r = add_u64 (runtime cpus this) part in
      let cpus' = set_runtime (set_runtime cpus i (sub_u64 (runtime cpus i) part)) this r in
      if i == this || runtime cpus i == runtime_inf
      then (false, cpus)
      else if is_positive diff
      then (r == env.rt_period, cpus')
      else (false, cpus)

  unfoldable pub borrow_loop : ℕ → List ℕ → Cpus → Cpus
  unfolding borrow_from
  borrow_loop this [] cpus = cpus
  borrow_loop this (i ∷ is) cpus =
      let (stop, cpus') = borrow_from this i cpus in
      let rest = borrow_loop this is cpus' in if stop then cpus' else rest

  unfoldable pub do_balance_runtime : ℕ → Cpus → Cpus
  unfolding borrow_loop
  do_balance_runtime this cpus = borrow_loop this span cpus

  -- `balance_runtime` with the feature RT_RUNTIME_SHARE.
  unfoldable pub balance_runtime : ℕ → Cpus → Cpus
  unfolding do_balance_runtime runtime time
  balance_runtime this cpus =
      if ltb (runtime cpus this) (time cpus this) then do_balance_runtime this cpus else cpus

  -- One neighbour of the greedy reclaim: what is still wanted, and the runqueues.
  unfoldable pub reclaim_from : ℕ → ℕ → ℕ → Cpus → ℕ × Cpus
  unfolding runtime set_runtime
  reclaim_from this i want cpus =
      let diff = min_s64 (runtime cpus i) want in
      if i == this || runtime cpus i == runtime_inf
      then (want, cpus)
      else if is_positive want
      then (sub_u64 want diff, set_runtime cpus i (sub_u64 (runtime cpus i) diff))
      else (0, set_runtime cpus i (sub_u64 (runtime cpus i) want))

  -- A neighbour that is passed over is followed by the next whatever is wanted.
  unfoldable pub reclaim_loop : ℕ → List ℕ → ℕ → Cpus → ℕ × Cpus
  unfolding reclaim_from runtime
  reclaim_loop this [] want cpus = (want, cpus)
  reclaim_loop this (i ∷ is) want cpus =
      let (want', cpus') = reclaim_from this i want cpus in
      let rest = reclaim_loop this is want' cpus' in
      if want' == 0 && not (i == this || runtime cpus i == runtime_inf)
      then (want', cpus')
      else rest

  -- The end of `__disable_runtime`.
  unfoldable pub make_infinite : ℕ → Cpus → Cpus
  unfolding sched_rt_rq_enqueue
  make_infinite this cpus =
      let rq = cpus this in
      update cpus this (
        sched_rt_rq_enqueue env
          (record rq { rt = record rq.rt { rt_runtime = runtime_inf; rt_throttled = false } }))

  -- BUG_ON(want) is `none`.
  abbrev pub after_reclaim : ℕ → ℕ × Cpus → Option Cpus
  after_reclaim this (want, cpus) = if want == 0 then some (make_infinite this cpus) else none

  unfoldable pub disable_runtime : Bool → ℕ → Cpus → Option Cpus
  unfolding reclaim_loop make_infinite runtime
  disable_runtime scheduler_running this cpus =
      let r = runtime cpus this in
      if not scheduler_running
      then some cpus
      else if r == runtime_inf || r == env.def_runtime
      then some (make_infinite this cpus)
      else after_reclaim this (reclaim_loop this span (sub_u64 env.def_runtime r) cpus)

  unfoldable pub enable_runtime : Bool → ℕ → Cpus → Cpus
  enable_runtime scheduler_running this cpus =
      let rq = cpus this in
      if not scheduler_running
      then cpus
      else update cpus this (record rq {
        rt = record rq.rt { rt_runtime = env.def_runtime; rt_time = 0; rt_throttled = false };
      })
