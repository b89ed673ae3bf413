-- ===== src/Shell/Jobs.antt =====
-- HW2.3-Shell/myshell.c, job control: the job list, `reap`, `update_process_status`, `wait_job`,
-- `resume`, `print_jobs`. A job pointer is an address: the `addr` of a job in the list. `none` is a
-- NULL dereference, which ends the shell. What wait, kill and fork answer are arguments.
pub mod Update
pub mod Wait
use kernel_programming.Prelude.{
  ℕ, suc, ◌+◌, Bool, true, false, ◌&&◌, ◌||◌, List, [], ◌∷◌, Option, some, none, ◌==◌,
  if◌then◌else◌,
}

-- What the WIF macros tell of a wait status.
pub data WaitStatus : Type 0 where
  exited signaled stopped : ℕ → WaitStatus
  continued : WaitStatus

-- The comment at the field: running is 0, stopped 1, terminated 2.
pub record Process : Type 0 where
  pub pid : ℕ
  pub status : ℕ

pub record Job : Type 0 where
  pub addr : ℕ
  pub pgid : ℕ
  pub cmd : List ℕ
  pub procs : List Process

-- `current` outlives its job's place in the list, since nothing is freed; only its address and
-- `pgid` are read. `terminal` is the foreground process group.
pub record Shell : Type 0 where
  pub jobs : List Job
  pub current : Option Job
  pub terminal : ℕ
  pub shell_pid : ℕ
  pub next_addr : ℕ

unfoldable pub change_status : Process → WaitStatus → Process
change_status ps (exited _) = record ps { status = 2 }
change_status ps (signaled _) = record ps { status = 2 }
change_status ps (stopped _) = record ps { status = 1 }
change_status ps continued = record ps { status = 0 }

abbrev pub same_job : Option Job → Job → Bool
same_job none j = false
same_job (some i) j = i.addr == j.addr

-- `terminated &= (ps->status == 2)` and `stopped &= (ps->status == 1)` over a job's processes.
abbrev pub all_status : ℕ → List Process → Bool
all_status k [] = true
all_status k (ps ∷ rest) = ps.status == k && all_status k rest

abbrev pub has_pid : ℕ → List Process → Bool
has_pid pid [] = false
has_pid pid (ps ∷ rest) = ps.pid == pid || has_pid pid rest

-- The inner loop: every process with the pid gets the new status.
pub change_procs : ℕ → WaitStatus → List Process → List Process
unfolding change_status
change_procs pid status [] = []
change_procs pid status (ps ∷ rest) =
    (if ps.pid == pid then change_status ps status else ps) ∷ change_procs pid status rest

-- `cur->next`
abbrev pub head_of : List Job → Option Job
head_of [] = none
head_of (j ∷ _) = some j

-- What the end of `update_process_status` makes of `current` and of the list from `cur` on.
abbrev pub settle : Option Job → Job → List Job → Option Job × List Job
settle current j rest =
    if all_status 2 j.procs
    then (if same_job current j then head_of rest else current, rest)
    else (if all_status 1 j.procs then some j else current, j ∷ rest)

abbrev pub keep_job : Job → Option (Option Job × List Job) → Option (Option Job × List Job)
keep_job j none = none
keep_job j (some (current, jobs)) = some (current, j ∷ jobs)

-- The outer loop, to the first job with the pid.
unfoldable pub update_jobs : ℕ → WaitStatus → Option Job → List Job → Option (Option Job × List Job)
unfolding change_procs
update_jobs pid status current [] = none
update_jobs pid status current (j ∷ rest) =
    let later = keep_job j (update_jobs pid status current rest) in
    if has_pid pid j.procs
    then some (settle current (record j { procs = change_procs pid status j.procs }) rest)
    else later

abbrev pub with_jobs : Shell → Option (Option Job × List Job) → Option Shell
with_jobs sh none = none
with_jobs sh (some (current, jobs)) = some (record sh { current = current; jobs = jobs })

-- A pid that no job has leaves `cur` NULL with `terminated` still 1, and each way on dereferences
-- a NULL pointer.
unfoldable pub update_process_status : ℕ → WaitStatus → Shell → Option Shell
unfolding update_jobs
update_process_status pid status sh = with_jobs sh (update_jobs pid status sh.current sh.jobs)

-- The loop of `reap` over what waitpid(-1, WNOHANG) reports, until it reports nothing.
unfoldable pub reap : List (ℕ × WaitStatus) → Shell → Option Shell
unfolding update_process_status
reap [] sh = some sh
reap ((pid, status) ∷ events) sh = elim (update_process_status pid status sh) [
  | none ↦ none
  | some sh' ↦ reap events sh'
]

-- The loop of `wait_job`: each process is waited for in turn.
abbrev pub wait_procs : (ℕ → WaitStatus) → List Process → List Process
wait_procs wait [] = []
wait_procs wait (ps ∷ rest) = change_status ps (wait ps.pid) ∷ wait_procs wait rest

abbrev pub replace_procs : ℕ → List Process → List Job → List Job
replace_procs addr procs [] = []
replace_procs addr procs (j ∷ rest) =
    (if j.addr == addr then record j { procs = procs } else j) ∷ replace_procs addr procs rest

-- `head = head->next`
abbrev pub drop_head : List Job → Option (List Job)
drop_head [] = none
drop_head (_ ∷ rest) = some rest

abbrev pub finish_wait : Shell → Job → List Job → Option Shell
finish_wait sh j jobs =
    if all_status 2 j.procs
    then elim (drop_head jobs) [ none ↦ none | some rest ↦ some (record sh { jobs = rest }) ]
    else some
        (record sh { jobs = jobs; current = if all_status 1 j.procs then some j else sh.current })

-- The terminal goes to the job and comes back to the shell at the end.
unfoldable pub wait_job : (ℕ → WaitStatus) → Job → Shell → Option Shell
unfolding change_status
wait_job wait j sh =
    let procs = wait_procs wait j.procs in
    finish_wait (record sh { terminal = sh.shell_pid }) (record j { procs = procs })
      (replace_procs j.addr procs sh.jobs)

unfoldable pub get_job : ℕ → List Job → Option Job
get_job pgid [] = none
get_job pgid (j ∷ rest) = if j.pgid == pgid then some j else get_job pgid rest

abbrev pub stop_procs : List Process → List Process
stop_procs [] = []
stop_procs (ps ∷ rest) = record ps { status = 1 } ∷ stop_procs rest

-- The status that it writes is 1.
abbrev pub mark_job_running : Job → Job
mark_job_running j = record j { procs = stop_procs j.procs }

pub data ResumeType : Type 0 where
  bg fg : ResumeType

-- The group to resume; `none` is "Job is already running!".
abbrev pub resume_pgid : Shell → Option ℕ → Option ℕ
resume_pgid sh (some pgid) = some pgid
resume_pgid sh none = elim sh.current [
  | some j ↦ some j.pgid
  | none ↦ elim sh.jobs [ [] ↦ none | j ∷ _ ↦ some j.pgid ]
]

abbrev pub resume_job : (ℕ → WaitStatus) → ResumeType → Shell → Option Job → Option Shell
resume_job wait type sh none = none
resume_job wait type sh (some j) =
    let j' = mark_job_running j in
    let sh' = record sh { jobs = replace_procs j.addr j'.procs sh.jobs } in
    elim type [ bg ↦ some sh' | fg ↦ wait_job wait j' sh' ]

-- `arg` is argv[1] as `atoi` reads it, if there is one; more than one argument leaves `pgid`
-- unset and is no call of this function. `kill_ok` is whether kill(-pgid, SIGCONT) succeeds.
unfoldable pub resume : (ℕ → Bool) → (ℕ → WaitStatus) → Option ℕ → ResumeType → Shell → Option Shell
unfolding get_job wait_job
resume kill_ok wait arg type sh = elim (resume_pgid sh arg) [
  | none ↦ some sh
  | some pgid ↦ if kill_ok pgid then resume_job wait type sh (get_job pgid sh.jobs) else some sh
]

-- A line of `print_jobs`: the number, the group and the command.
pub print_from : ℕ → List Job → List (ℕ × ℕ × List ℕ)
print_from i [] = []
print_from i (j ∷ rest) = (i, j.pgid, j.cmd) ∷ print_from (i + 1) rest

pub print_jobs : Shell → List (ℕ × ℕ × List ℕ)
unfolding print_from
print_jobs sh = print_from 1 sh.jobs

-- The parent's side of the fork loop of `exec_job`: the first child opens a job at the head of the
-- list, each further child goes to the front of its processes.
abbrev pub add_procs : List Process → List ℕ → List Process
add_procs procs [] = procs
add_procs procs (pid ∷ pids) = add_procs (record { pid = pid; status = 0 } ∷ procs) pids

abbrev pub new_job : Shell → List ℕ → ℕ → List ℕ → Job
new_job sh cmd pid pids = record {
  addr = sh.next_addr;
  pgid = pid;
  cmd = cmd;
  procs = add_procs (record { pid = pid; status = 0 } ∷ []) pids;
}

abbrev pub launch : Shell → List ℕ → ℕ → List ℕ → Shell
launch sh cmd pid pids = record sh {
  jobs = new_job sh cmd pid pids ∷ sh.jobs;
  next_addr = suc sh.next_addr;
}
