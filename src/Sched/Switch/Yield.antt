-- ===== src/Sched/Switch/Yield.antt =====
-- kernel/sched/core.c and kernel/sched/ts.c, one call of sched_yield by a time-sharing task: what
-- `do_sched_yield`, `__schedule`, `pick_next_task` and the class do together.
use kernel_programming.Sched.Rt.{RtEnv}
use kernel_programming.Sched.RtClass.{rt_ops, pick_next_task_rt}
use kernel_programming.Prelude.{
  true, ◌&&◌, ℕ, suc, ◌+◌, ◌<◌, ◌≤◌, ◌≡◌, refl, sym, ap, ◌∙◌, subst, List, [], ◌∷◌, ◌++◌, Option,
  some, false, arith, count, remove-cons_once, ◌==◌, count-append, if◌then◌else◌, ◌%◌, ◌^◌, not,
  ◌||◌, ◌>>=◌, Bool, none,
}
use kernel_programming.Sched.{
  Rq, set_task, stop_sched_class, dl_sched_class, rt_sched_class, ts_sched_class, RtRq,
}
use kernel_programming.Sched.Frame.{prio_of}
use kernel_programming.Sched.Class.{External, put_prev_task, class_ops, nothing}
use kernel_programming.Sched.Ts.{yield_task_ts, first_entry, list_del}
use kernel_programming.Sched.Ts.Invariant.{IsWellQueued}
use kernel_programming.Sched.Ts.Steps.{index_of, push_back, yield-IsWellQueued}
use kernel_programming.Sched.Ts.Pick.{IsFirst-first_entry}
use kernel_programming.Sched.Switch.{
  chosen, do_sched_yield, schedule, pick_next_task, switch_to, count_switch, only_fair, sleep_prev,
}
use kernel_programming.Sched.Switch.Idle.{OffersNothing, pick_next_task-finds_ts}

-- The runqueue has no stop task, no deadline task, and the real-time class is not offered.
pub record HasNoOther (rq : Rq) : Type 0 where
  pub no_stop : rq.stop ≡ none
  pub no_dl : rq.dl_nr_running ≡ 0
  pub no_rt : rq.rt.rt_queued ≡ false

-- The real-time class is that of rt.c. The stop and the deadline class have nothing to offer after a
-- time-sharing task on such a runqueue.
pub record IsAlone (ext : External) : Type 0 where
  pub stop :
      (rq : Rq) (prev : ℕ)
      → HasNoOther rq
      → (rq.task prev).sched_class ≡ ts_sched_class
      → OffersNothing ext prev stop_sched_class rq
  pub dl :
      (rq : Rq) (prev : ℕ)
      → HasNoOther rq
      → (rq.task prev).sched_class ≡ ts_sched_class
      → OffersNothing ext prev dl_sched_class rq
  pub rt : (env : RtEnv) × (ext.class rt_sched_class ≡ rt_ops env)

and_none : (a : Bool) → (a && false) ≡ false
and_none true = refl
and_none false = refl

-- Then the real-time class has nothing to offer either.
rt_ops-OffersNothing :
    (env : RtEnv) (put : Rq → ℕ → Rq) (rq : Rq) (prev : ℕ)
    → HasNoOther rq
    → (rq.task prev).sched_class ≡ ts_sched_class
    → pick_next_task_rt env put rq prev ≡ (nothing, rq)
unfolding pick_next_task_rt
rt_ops-OffersNothing env put rq prev h class =
    rw (class, h.no_stop, h.no_dl, h.no_rt, and_none) refl

-- `l` is the best queue that is not empty, at the level `i`, its head runs, and its tasks are ready.
pub record IsTurn (i : ℕ) (l : List ℕ) (rq : Rq) : Type 0 where
  pub queued : IsWellQueued rq
  pub others : HasNoOther rq
  pub level : rq.ts i ≡ l
  pub above : (j : ℕ) → i < j → j < 40 → rq.ts j ≡ []
  pub runs : (rest : List ℕ) × (l ≡ rq.curr ∷ rest)
  pub ready :
      (q : ℕ) → 0 < count q l → ((rq.task q).sched_class ≡ ts_sched_class) × ((rq.task q).state ≡ 0)

abbrev after_switch : ℕ → ℕ → Rq → Rq
after_switch prev next rq =
    let rq' = set_task rq prev (record (rq.task prev) { need_resched = false }) in
    let counted = set_task rq' prev (count_switch false (rq'.task prev)) in
    if prev == next
    then rq'
    else record counted { curr = next; nr_switches = (rq.nr_switches + 1) % 2 ^ 64 }

-- What a switch leaves of a task and of the queues.
record IsSwitched (next : ℕ) (rq rq' : Rq) : Type 0 where
  queues : rq'.ts ≡ rq.ts
  same_stop : rq'.stop ≡ rq.stop
  same_dl : rq'.dl_nr_running ≡ rq.dl_nr_running
  same_rt : rq'.rt ≡ rq.rt
  current : rq'.curr ≡ next
  task :
      (q : ℕ)
      → ((rq'.task q).sched_class ≡ (rq.task q).sched_class)
        × ((rq'.task q).state ≡ (rq.task q).state)
        × (prio_of rq' q ≡ prio_of rq q)

after_switch-IsSwitched : (next : ℕ) (rq : Rq) → IsSwitched next rq (after_switch rq.curr next rq)
after_switch-IsSwitched next rq = record {
  queues = ground arith;
  same_stop = ground arith;
  same_dl = ground arith;
  same_rt = ground arith;
  current = ground arith;
  task = λ q. (ground arith, ground arith, ground arith);
}

front : (l : List ℕ) (p : ℕ) → (next : ℕ) × (more : List ℕ) × (l ++ p ∷ [] ≡ next ∷ more)
front [] p = (p, [], refl)
front (x ∷ l) p = (x, l ++ p ∷ [], refl)

abbrev after_yield : Rq → Rq
after_yield rq = record rq { ts = push_back rq.curr (prio_of rq rq.curr) (list_del rq.curr rq.ts) }

-- The queues behind the yield of the current task.
record IsYielded (i : ℕ) (rest : List ℕ) (rq : Rq) : Type 0 where
  yields : yield_task_ts rq ≡ some (after_yield rq)
  queued : IsWellQueued (after_yield rq)
  level : (after_yield rq).ts i ≡ rest ++ rq.curr ∷ []
  above : (j : ℕ) → i < j → j < 40 → (after_yield rq).ts j ≡ []

after_yield-IsYielded :
    (i : ℕ) (rest : List ℕ) (rq : Rq) → i < 40 → IsTurn i (rq.curr ∷ rest) rq → IsYielded i rest rq
after_yield-IsYielded i rest rq lt turn =
    let in_queue : 0 < count rq.curr (rq.ts i) = rw turn.level (ground arith) in
    let prio = turn.queued.placed i rq.curr lt in_queue in
    let (yields, queued) = yield-IsWellQueued rq (rw prio (omega arith)) turn.queued in
    let at : index_of (prio_of rq rq.curr) ≡ i = rw prio (omega arith) in
    let once : count rq.curr (rq.curr ∷ rest) ≤ 1 =
      subst (λ l. count rq.curr l ≤ 1) turn.level (turn.queued.once i rq.curr lt) in
    record {
      yields = yields;
      queued = queued;
      level = rw (at, turn.level, remove-cons_once rq.curr rest once) (ground arith);
      above = λ j lo hi. ground (arith, at, turn.above j lo hi);
    }

switch_to-chosen :
    (next : ℕ) (rq : Rq)
    → switch_to rq.curr false (chosen next rq) ≡ chosen next (after_switch rq.curr next rq)
switch_to-chosen next rq = ground arith

after_yield-HasNoOther : (rq : Rq) → HasNoOther rq → HasNoOther (after_yield rq)
after_yield-HasNoOther rq h = record { no_stop = h.no_stop; no_dl = h.no_dl; no_rt = h.no_rt }

schedule-switches :
    (ext : External) (fuel : ℕ) (rq : Rq) (next : ℕ)
    → IsAlone ext
    → HasNoOther rq
    → (rq.task rq.curr).sched_class ≡ ts_sched_class
    → (rq.task rq.curr).state ≡ 0
    → first_entry rq.ts 40 ≡ some next
    → schedule ext (suc fuel) rq false ≡ some (chosen next (after_switch rq.curr next rq))
unfolding schedule put_prev_task
schedule-switches ext fuel rq next alone other class state first =
    let all : only_fair rq rq.curr ≡ false = rw class refl in
    let put : put_prev_task ext rq rq.curr ≡ rq = rw (class, put_prev_task) refl in
    let rt : OffersNothing ext rq.curr rt_sched_class rq =
      rw alone.rt.1 (rt_ops-OffersNothing alone.rt.0 (put_prev_task ext) rq rq.curr other class) in
    let picks =
      pick_next_task-finds_ts ext fuel rq next rq.curr all first (alone.stop rq rq.curr other class)
        (alone.dl rq rq.curr other class) rt in
    let pick = λ (s : Rq). pick_next_task ext (suc fuel) s rq.curr in
    let after = λ (v : Bool) (o : Option Rq). o >>= λ s. some (switch_to rq.curr v (pick s)) in
    let awake : sleep_prev ext rq false ≡ some rq = ground (arith, state) in
    let forced : not (false || (rq.task rq.curr).state == 0) ≡ false = ground (arith, state) in
    ap (λ v. after v (sleep_prev ext rq false)) forced
    ∙ ap (after false) awake
    ∙ ap (λ c. some (switch_to rq.curr false c)) (picks ∙ ap (chosen next) put)
    ∙ ap some (switch_to-chosen next rq)

after_switch-IsTurn :
    (i : ℕ) (rest more : List ℕ) (next : ℕ) (rq rq' : Rq)
    → IsTurn i (rq.curr ∷ rest) rq
    → IsYielded i rest rq
    → IsSwitched next (after_yield rq) rq'
    → rest ++ rq.curr ∷ [] ≡ next ∷ more
    → IsTurn i (rest ++ rq.curr ∷ []) rq'
after_switch-IsTurn i rest more next rq rq' turn y sw split = record {
  queued = record {
    placed = λ j p lt c.
        (sw.task p).2 ∙ y.queued.placed j p lt (subst (λ t. 0 < count p (t j)) sw.queues c);
    once = λ j p lt.
        subst (λ (t : ℕ → List ℕ). count p (t j) ≤ 1) (sym sw.queues) (y.queued.once j p lt);
  };
  others = record {
    no_stop = sw.same_stop ∙ turn.others.no_stop;
    no_dl = sw.same_dl ∙ turn.others.no_dl;
    no_rt = ap (λ (r : RtRq). r.rt_queued) sw.same_rt ∙ turn.others.no_rt;
  };
  level = ap (λ (t : ℕ → List ℕ). t i) sw.queues ∙ y.level;
  above = λ j lo hi. ap (λ (t : ℕ → List ℕ). t j) sw.queues ∙ y.above j lo hi;
  runs = (more, split ∙ ap (λ c. c ∷ more) (sym sw.current));
  ready = λ q c.
      let waits : 0 < count q (rq.curr ∷ rest) =
        ground (arith, c, count-append q rest (rq.curr ∷ [])) in
      let (class, state) = turn.ready q waits in ((sw.task q).0 ∙ class, (sw.task q).1 ∙ state);
}

-- One sched_yield: the head of the queue goes to its end, and the task behind it runs.
pub do_sched_yield-IsTurn :
    (ext : External) (fuel i : ℕ) (rest : List ℕ) (rq : Rq)
    → i < 40
    → IsAlone ext
    → IsTurn i (rq.curr ∷ rest) rq
    → (next : ℕ) × (rq' : Rq) × (do_sched_yield ext (suc fuel) rq ≡ some (chosen next rq'))
      × IsTurn i (rest ++ rq.curr ∷ []) rq'
unfolding do_sched_yield
do_sched_yield-IsTurn ext fuel i rest rq lt alone turn =
    let y = after_yield-IsYielded i rest rq lt turn in
    let (next, more, split) = front rest rq.curr in
    let (class, state) = turn.ready rq.curr (ground arith) in
    let first =
      IsFirst-first_entry (after_yield rq).ts 40 next i more lt (y.level ∙ split) y.above in
    let goes = λ (o : Option Rq). o >>= λ s. schedule ext (suc fuel) s false in
    (
      next,
      after_switch rq.curr next (after_yield rq),
      ap (λ c. goes ((class_ops ext c).yield_task rq)) class
          ∙ ap goes y.yields
          ∙ schedule-switches ext fuel (after_yield rq) next alone
              (after_yield-HasNoOther rq turn.others) class state first,
      after_switch-IsTurn i rest more next rq _ turn y
          (after_switch-IsSwitched next (after_yield rq)) split,
    )
