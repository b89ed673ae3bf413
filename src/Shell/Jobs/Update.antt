-- ===== src/Shell/Jobs/Update.antt =====
-- `update_process_status` and `reap` of HW2.3-Shell/myshell.c.
use kernel_programming.Prelude.{
  ℕ, ◌≡◌, refl, Bool, true, false, ◌||◌, List, [], ◌∷◌, ◌++◌, Option, some, none, arith, Bool-cases,
  inl, inr, ap,
}
use kernel_programming.Shell.Jobs.{
  Shell, Job, WaitStatus, has_pid, all_status, change_procs, update_jobs, update_process_status,
  settle, with_jobs, reap,
}

-- Some job has the pid.
abbrev pub is_known : ℕ → List Job → Bool
is_known pid [] = false
is_known pid (j ∷ rest) = has_pid pid j.procs || is_known pid rest

-- No job on the list has only terminated processes.
abbrev pub AllLive : List Job → Type 0
AllLive [] = Unit {0}
AllLive (j ∷ rest) = (all_status 2 j.procs ≡ false) × AllLive rest

update_jobs-unknown :
    (pid : ℕ) (status : WaitStatus) (current : Option Job) (jobs : List Job)
    → is_known pid jobs ≡ false
    → update_jobs pid status current jobs ≡ none
unfolding update_jobs
update_jobs-unknown pid status current [] h = refl
update_jobs-unknown pid status current (j ∷ rest) h =
    ground (arith, update_jobs-unknown pid status current rest)

-- The report of a process that belongs to no job ends the shell, whatever its state.
pub update_process_status-unknown :
    (pid : ℕ) (status : WaitStatus) (sh : Shell)
    → is_known pid sh.jobs ≡ false
    → update_process_status pid status sh ≡ none
unfolding update_process_status
update_process_status-unknown pid status sh h =
    ap (with_jobs sh) (update_jobs-unknown pid status sh.current sh.jobs h)

-- What an update does to a list: the first job with the pid has its processes changed, and goes
-- exactly if all of them have terminated; the jobs before and behind it stay as they are.
pub record IsUpdated (pid : ℕ) (status : WaitStatus) (jobs jobs' : List Job) : Type 0 where
  pub before : List Job
  pub job : Job
  pub after : List Job
  pub split : jobs ≡ before ++ job ∷ after
  pub first : is_known pid before ≡ false
  pub found : has_pid pid job.procs ≡ true
  pub gone : all_status 2 (change_procs pid status job.procs) ≡ true → jobs' ≡ before ++ after
  pub kept :
      all_status 2 (change_procs pid status job.procs) ≡ false
      → jobs' ≡ before ++ record job { procs = change_procs pid status job.procs } ∷ after

settle_lem :
    (pid : ℕ) (status : WaitStatus) (current : Option Job) (j : Job) (rest : List Job)
    → has_pid pid j.procs ≡ true
    → IsUpdated pid status
        (j ∷ rest)
        (settle current (record j { procs = change_procs pid status j.procs }) rest).1
settle_lem pid status current j rest h = record {
  before = [];
  job = j;
  after = rest;
  split = refl;
  first = refl;
  found = h;
  gone = λ e. ground (arith, e);
  kept = λ e. ground (arith, e);
}

keep_lem :
    (pid : ℕ) (status : WaitStatus) (j : Job) {rest rest' : List Job}
    → has_pid pid j.procs ≡ false
    → IsUpdated pid status rest rest'
    → IsUpdated pid status (j ∷ rest) (j ∷ rest')
keep_lem pid status j h u = record {
  before = j ∷ u.before;
  job = u.job;
  after = u.after;
  split = ap (◌∷◌ j) u.split;
  first = rw (h, u.first);
  found = u.found;
  gone = λ e. ap (◌∷◌ j) (u.gone e);
  kept = λ e. ap (◌∷◌ j) (u.kept e);
}

update_jobs_lem :
    (pid : ℕ) (status : WaitStatus) (current : Option Job) (jobs : List Job)
    → is_known pid jobs ≡ true
    → (r : Option Job × List Job) × (update_jobs pid status current jobs ≡ some r)
      × IsUpdated pid status jobs r.1
unfolding update_jobs
update_jobs_lem pid status current [] h = absurd (cc)
update_jobs_lem pid status current (j ∷ rest) h = elim (Bool-cases (has_pid pid j.procs)) [
  | inl found ↦ (
    settle current (record j { procs = change_procs pid status j.procs }) rest,
    rw found,
    settle_lem pid status current j rest found,
  )
  | inr missing ↦
      let known : is_known pid rest ≡ true = ground (arith, missing) in
      let (r, e, u) = update_jobs_lem pid status current rest known in
      ((r.0, j ∷ r.1), ground (arith, missing, e), keep_lem pid status j missing u)
]

-- The report of a process of some job is taken in: the first job that has the process gets the new
-- state in it, and leaves the list exactly if all its processes have terminated; the other jobs stay.
pub update_process_status-known :
    (pid : ℕ) (status : WaitStatus) (sh : Shell)
    → is_known pid sh.jobs ≡ true
    → (sh' : Shell) × (update_process_status pid status sh ≡ some sh')
      × IsUpdated pid status sh.jobs sh'.jobs
unfolding update_process_status
update_process_status-known pid status sh h =
    let (r, e, u) = update_jobs_lem pid status sh.current sh.jobs h in
    (record sh { current = r.0; jobs = r.1 }, ap (with_jobs sh) e, u)

AllLive-append : (xs ys : List Job) → AllLive xs → AllLive ys → AllLive (xs ++ ys)
AllLive-append [] ys hx hy = hy
AllLive-append (x ∷ xs) ys hx hy = (hx.0, AllLive-append xs ys hx.1 hy)

AllLive-split : (xs ys : List Job) → AllLive (xs ++ ys) → AllLive xs × AllLive ys
AllLive-split [] ys h = (tt, h)
AllLive-split (x ∷ xs) ys h = let (hx, hy) = AllLive-split xs ys h.1 in ((h.0, hx), hy)

IsUpdated-AllLive :
    {pid : ℕ} {status : WaitStatus} {jobs jobs' : List Job}
    → IsUpdated pid status jobs jobs'
    → AllLive jobs
    → AllLive jobs'
IsUpdated-AllLive {pid} {status} u v =
    let (live_before, live_from) = AllLive-split u.before (u.job ∷ u.after) (rw u.split at v) in
    elim (Bool-cases (all_status 2 (change_procs pid status u.job.procs))) [
      | inl e ↦ rw (u.gone e) (AllLive-append u.before u.after live_before live_from.1)
      | inr e ↦ rw (u.kept e) (AllLive-append u.before (_ ∷ u.after) live_before (e, live_from.1))
    ]

-- Reports that the shell survives leave no job on the list whose processes have all terminated.
pub reap-AllLive :
    (events : List (ℕ × WaitStatus)) (sh sh' : Shell)
    → AllLive sh.jobs
    → reap events sh ≡ some sh'
    → AllLive sh'.jobs
unfolding reap
reap-AllLive [] sh sh' v e = ground (arith, v)
reap-AllLive ((pid, status) ∷ events) sh sh' v e = elim (Bool-cases (is_known pid sh.jobs)) [
  | inl known ↦
      let (next, step, u) = update_process_status-known pid status sh known in
      reap-AllLive events next sh' (IsUpdated-AllLive u v) (rw (step, reap) at e)
  | inr unknown ↦ ground (arith, update_process_status-unknown pid status sh unknown)
]
