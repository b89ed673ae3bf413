-- ===== src/Sched/Prio/Classify.antt =====
-- The priority and the class that a change of the policy gives (kernel/sched/core.c).
use kernel_programming.Prelude.{
  ◌-◌, subst, sym, ap, ◌∙◌, if◌then◌else◌, ℕ, ◌≤◌, ◌<◌, ◌≡◌, refl, arith, Bool, true, false, List,
  some, Option, ◌∷◌, [], zero, suc, if◌then◌else◌, get_elem?, length, ap, ◌∙◌,
}
use kernel_programming.Prelude.Int.{ℤ, pos, negsuc, ◌≤ℤ◌, ◌-ℤ◌}
use kernel_programming.Sched.{
  fair_policy, Task, SchedClass, dl_policy, rt_policy, ts_policy, dl_sched_class, rt_sched_class,
  ts_sched_class, fair_sched_class,
}
use kernel_programming.Sched.Class.{External}
use kernel_programming.Sched.Prio.{
  nice_to_prio, normal_prio, class_for, set_load_weight, weights_at, setscheduler_params,
  setscheduler, SchedAttr, sched_prio_to_weight, sched_prio_to_wmult, policy_or,
}

-- The class that is meant to serve a policy.
abbrev pub serving : ℕ → SchedClass
serving policy =
    if dl_policy policy
    then dl_sched_class
    else if rt_policy policy
    then rt_sched_class
    else if ts_policy policy
    then ts_sched_class
    else fair_sched_class

class_for-normal_prio :
    (t : Task)
    → pos 100 ≤ℤ t.static_prio
    → t.rt_priority ≤ 99
    → class_for (normal_prio t) t.policy ≡ serving t.policy
unfolding normal_prio ◌-ℤ◌
class_for-normal_prio t static rt = ground arith

-- Two tasks that differ in other fields than these.
pub record IsSame (t t' : Task) : Type 0 where
  pub policy : t'.policy ≡ t.policy
  pub static_prio : t'.static_prio ≡ t.static_prio
  pub rt_priority : t'.rt_priority ≡ t.rt_priority

-- `reweight_task` writes the weights alone.
abbrev pub ReweightsOnly : External → Type 0
ReweightsOnly ext = (t : Task) (prio : ℤ) → IsSame t (ext.reweight_task t prio)

abbrev Gives : Task → Option Task → Type 0
Gives t r = (t' : Task) × (r ≡ some t') × IsSame t t'

get_elem?-below : (l : List ℕ) (i : ℕ) → i < length l → (x : ℕ) × (get_elem? l i ≡ some x)
get_elem?-below [] i lt = ground arith
get_elem?-below (x ∷ l) zero lt = (x, refl)
get_elem?-below (x ∷ l) (suc i) lt = get_elem?-below l i (omega arith)

weights_at-below : (ext : External) (t : Task) (i : ℕ) → i < 40 → Gives t (weights_at ext t (pos i))
weights_at-below ext t i lt =
    let w = get_elem?-below sched_prio_to_weight i lt in
    let m = get_elem?-below sched_prio_to_wmult i lt in
    (
      record t { weight = ext.scale_load w.0; inv_weight = m.0 },
      rw (w.1, m.1),
      record { policy = refl; static_prio = refl; rt_priority = refl },
    )

level_below :
    (prio : ℤ) → pos 100 ≤ℤ prio → prio ≤ℤ pos 139 → (i : ℕ) × (i < 40) × (prio -ℤ pos 100 ≡ pos i)
unfolding ◌-ℤ◌
level_below (pos n) lo hi = (n - 100, omega arith, ground arith)
level_below (negsuc n) lo hi = ground arith

Gives-if :
    (t : Task) (b : Bool) (x y : Option Task) → Gives t x → Gives t y → Gives t (if b then x else y)
Gives-if t true x y gx gy = gx
Gives-if t false x y gx gy = gy

set_load_weight-Gives :
    (ext : External) (t : Task) (update_load : Bool)
    → ReweightsOnly ext
    → pos 100 ≤ℤ t.static_prio
    → t.static_prio ≤ℤ pos 139
    → Gives t (set_load_weight ext t update_load)
unfolding set_load_weight
set_load_weight-Gives ext t update_load only lo hi =
    let (i, lt, eq) = level_below t.static_prio lo hi in
    Gives-if t _ _ _ (_, refl, record { policy = refl; static_prio = refl; rt_priority = refl })
      (Gives-if t _ _ _ (_, refl, only t _)
        (subst (λ z. Gives t (weights_at ext t z)) (sym eq) (weights_at-below ext t i lt)))

-- The static priority that a request gives.
abbrev static_after : Task → SchedAttr → ℤ
static_after t attr =
    if fair_policy (policy_or attr.sched_policy t.policy)
    then nice_to_prio attr.sched_nice
    else t.static_prio

-- When `reweight_task` writes the weights alone, the static priority that the request gives is one
-- of the forty of the fair class, and its real-time priority is at most 99, then `__setscheduler`
-- without a boost gives the task the policy asked for, or the old one if none is, and the class that
-- serves that policy.
pub setscheduler-serves :
    (ext : External) (pi_prio : Option ℤ) (t : Task) (attr : SchedAttr)
    → ReweightsOnly ext
    → pos 100 ≤ℤ static_after t attr
    → static_after t attr ≤ℤ pos 139
    → attr.sched_priority ≤ 99
    → (t' : Task) × (setscheduler ext pi_prio t attr false ≡ some t')
      × (t'.policy ≡ policy_or attr.sched_policy t.policy)
      × (t'.sched_class ≡ serving (policy_or attr.sched_policy t.policy))
unfolding setscheduler setscheduler_params
setscheduler-serves ext pi_prio t attr only lo hi rt =
    let policy = policy_or attr.sched_policy t.policy in
    let asked : Task = record t {
      policy = policy;
      static_prio = static_after t attr;
      rt_priority = attr.sched_priority;
    } in
    let with_normal : Task = record asked { normal_prio = normal_prio asked } in
    let (t', eq, same) = set_load_weight-Gives ext with_normal true only lo hi in
    (
      record t' { prio = normal_prio t'; sched_class = class_for (normal_prio t') t'.policy },
      rw eq,
      same.policy,
      class_for-normal_prio t' (subst (λ z. pos 100 ≤ℤ z) (sym same.static_prio) lo)
            (subst (λ z. z ≤ 99) (sym same.rt_priority) rt)
          ∙ ap serving same.policy,
    )
