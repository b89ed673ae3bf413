-- ===== src/Shell/Jobs/Wait.antt =====
-- `wait_job`, `mark_job_running` and `resume` of HW2.3-Shell/myshell.c.
use kernel_programming.Prelude.{
  ℕ, ◌≡◌, ◌≢◌, refl, Bool, true, false, List, [], ◌∷◌, some, none, if◌then◌else◌, arith, Bool-cases,
  inl, inr, ◌∙◌,
}
use kernel_programming.Shell.Jobs.{
  Shell, Job, Process, WaitStatus, has_pid, all_status, change_status, wait_procs, replace_procs,
  wait_job, update_process_status, mark_job_running, stop_procs, resume, get_job, bg,
}
use kernel_programming.Shell.Jobs.Update.{is_known, update_process_status-unknown}

-- No job on the list is the one at the address.
abbrev pub AllElsewhere : ℕ → List Job → Type 0
AllElsewhere addr [] = Unit {0}
AllElsewhere addr (j ∷ rest) = (j.addr ≢ addr) × AllElsewhere addr rest

replace_procs-elsewhere :
    (addr : ℕ) (procs : List Process) (jobs : List Job)
    → AllElsewhere addr jobs
    → replace_procs addr procs jobs ≡ jobs
replace_procs-elsewhere addr procs [] h = refl
replace_procs-elsewhere addr procs (j ∷ rest) h =
    ground (arith, h.0, replace_procs-elsewhere addr procs rest h.1)

-- The job as its processes were waited for.
abbrev pub waited : (ℕ → WaitStatus) → Job → Job
waited wait j = record j { procs = wait_procs wait j.procs }

-- To wait for the job at the head of the list removes it if all its processes have terminated, and
-- keeps it with their new states otherwise; the jobs behind it stay as they are, and the terminal
-- comes back to the shell.
pub wait_job-head :
    (wait : ℕ → WaitStatus) (j : Job) (rest : List Job) (sh : Shell)
    → sh.jobs ≡ j ∷ rest
    → AllElsewhere j.addr rest
    → (sh' : Shell) × (wait_job wait j sh ≡ some sh')
      × (sh'.jobs ≡ (if all_status 2 (waited wait j).procs then rest else waited wait j ∷ rest))
      × (sh'.terminal ≡ sh.shell_pid)
unfolding wait_job
wait_job-head wait j rest sh e h = elim (Bool-cases (all_status 2 (waited wait j).procs)) [
  | inl done ↦ (
    record sh { terminal = sh.shell_pid; jobs = rest },
    ground (arith, e, done, replace_procs-elsewhere j.addr (waited wait j).procs rest h),
    rw done,
    refl,
  )
  | inr more ↦ (
    record sh {
      terminal = sh.shell_pid;
      jobs = waited wait j ∷ rest;
      current = if all_status 1 (waited wait j).procs then some (waited wait j) else sh.current;
    },
    ground (arith, e, more, replace_procs-elsewhere j.addr (waited wait j).procs rest h),
    rw more,
    refl,
  )
]

pid-change_status : (ps : Process) (status : WaitStatus) → (change_status ps status).pid ≡ ps.pid
unfolding change_status
pid-change_status ps (WaitStatus.exited n) = refl
pid-change_status ps (WaitStatus.signaled n) = refl
pid-change_status ps (WaitStatus.stopped n) = refl
pid-change_status ps WaitStatus.continued = refl

has_pid-wait_procs :
    (wait : ℕ → WaitStatus) (pid : ℕ) (procs : List Process)
    → has_pid pid (wait_procs wait procs) ≡ has_pid pid procs
has_pid-wait_procs wait pid [] = refl
has_pid-wait_procs wait pid (ps ∷ rest) =
    ground (arith, pid-change_status ps (wait ps.pid), has_pid-wait_procs wait pid rest)

is_known-replace_procs :
    (addr pid : ℕ) (procs : List Process) (jobs : List Job)
    → has_pid pid procs ≡ false
    → is_known pid jobs ≡ false
    → is_known pid (replace_procs addr procs jobs) ≡ false
is_known-replace_procs addr pid procs [] h k = refl
is_known-replace_procs addr pid procs (j ∷ rest) h k =
    ground (arith, is_known-replace_procs addr pid procs rest h)

-- To wait for a job that is not at the head of the list, until all its processes have terminated,
-- removes the head in its place. The job stays on the list, and a report of a process of the lost
-- job ends the shell.
pub wait_job-behind :
    (wait : ℕ → WaitStatus) (j h : Job) (rest : List Job) (sh : Shell) (pid : ℕ)
    (status : WaitStatus)
    → sh.jobs ≡ h ∷ rest
    → h.addr ≢ j.addr
    → all_status 2 (waited wait j).procs ≡ true
    → has_pid pid j.procs ≡ false
    → is_known pid rest ≡ false
    → (sh' : Shell) × (wait_job wait j sh ≡ some sh')
      × (sh'.jobs ≡ replace_procs j.addr (waited wait j).procs rest)
      × (update_process_status pid status sh' ≡ none)
unfolding wait_job
wait_job-behind wait j h rest sh pid status e ne done other unknown =
    let sh' : Shell = record sh {
      terminal = sh.shell_pid;
      jobs = replace_procs j.addr (waited wait j).procs rest;
    } in
    (
      sh',
      ground (arith, e, done),
      refl,
      update_process_status-unknown pid status sh' (
          is_known-replace_procs j.addr pid (waited wait j).procs rest
            (has_pid-wait_procs wait pid j.procs ∙ other) unknown),
    )

stop_procs-stopped : (procs : List Process) → all_status 1 (stop_procs procs) ≡ true
stop_procs-stopped [] = refl
stop_procs-stopped (ps ∷ rest) = ground (arith, stop_procs-stopped rest)

-- A job that is resumed in the background is recorded with the status 1 for each process, the
-- number of a stopped one.
pub resume-stopped :
    (kill_ok : ℕ → Bool) (wait : ℕ → WaitStatus) (pgid : ℕ) (sh : Shell) (j : Job)
    → kill_ok pgid ≡ true
    → get_job pgid sh.jobs ≡ some j
    → (sh' : Shell) × (resume kill_ok wait (some pgid) bg sh ≡ some sh')
      × (sh'.jobs ≡ replace_procs j.addr (mark_job_running j).procs sh.jobs)
      × (all_status 1 (mark_job_running j).procs ≡ true)
unfolding resume
resume-stopped kill_ok wait pgid sh j ok found = (
  record sh { jobs = replace_procs j.addr (mark_job_running j).procs sh.jobs },
  ground (arith, found),
  refl,
  stop_procs-stopped j.procs,
)
