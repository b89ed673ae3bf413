-- ===== src/Shell/Exec/Launch.antt =====
-- Running a line in HW2.3-Shell/myshell.c: a foreground pipeline, a background one, and a line
-- with no command.
use kernel_programming.Prelude.{
  ℕ, ◌≡◌, refl, true, false, List, [], ◌∷◌, ◌∙◌, ap, Option-cases, inl, inr,
}
use kernel_programming.Shell.Jobs.{
  Shell, Process, WaitStatus, exited, all_status, change_status, wait_procs, launch, new_job, reap,
}
use kernel_programming.Shell.Jobs.Wait.{AllElsewhere, wait_job-head}
use kernel_programming.Shell.Exec.{
  System, crashes, goes_on, exec_job, run_job, after_call, pids_from,
}
use kernel_programming.Shell.Parse.{split_pipes, skip_blanks}
use kernel_programming.Shell.Line.{text_eq}

all-exited :
    (wait : ℕ → WaitStatus) (procs : List Process)
    → ((pid : ℕ) → (code : ℕ) × (wait pid ≡ exited code))
    → all_status 2 (wait_procs wait procs) ≡ true
unfolding change_status
all-exited wait [] h = refl
all-exited wait (ps ∷ rest) h = rw ((h ps.pid).1, all-exited wait rest h, change_status)

-- A pipeline in the foreground whose processes all exit leaves the job list as it was, and gives
-- the terminal back to the shell.
pub run_job-foreground :
    (sys : System) (cmd : List ℕ) (n : ℕ) (sh : Shell)
    → AllElsewhere sh.next_addr sh.jobs
    → ((pid : ℕ) → (code : ℕ) × (sys.wait pid ≡ exited code))
    → (sh' : Shell) × (run_job sys cmd false n sh ≡ goes_on sh')
      × (sh'.jobs ≡ sh.jobs)
      × (sh'.terminal ≡ sh.shell_pid)
run_job-foreground sys cmd n sh fresh exit =
    let job = new_job sh cmd (sys.fork 0) (pids_from sys.fork 1 n) in
    let (sh', e, jobs, terminal) =
      wait_job-head sys.wait job sh.jobs (launch sh cmd (sys.fork 0) (pids_from sys.fork 1 n)) refl
        fresh in
    (sh', ap after_call e, jobs ∙ rw (all-exited sys.wait job.procs exit), terminal)

-- A line that is only '&' names no command and ends the shell, whatever its state and whatever
-- the system answers.
pub exec_job-ampersand : (sys : System) (sh : Shell) → exec_job sys (b'&' ∷ []) sh ≡ crashes
unfolding exec_job split_pipes skip_blanks text_eq
exec_job-ampersand sys sh = elim (Option-cases (reap sys.first_reap sh)) [
  | inl e ↦ rw e
  | inr (sh', e) ↦ rw e
]
