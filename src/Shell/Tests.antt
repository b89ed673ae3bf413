-- ===== src/Shell/Tests.antt =====
-- Runs of HW2.3-Shell/myshell.c on concrete lines and jobs.
mod Pipes
mod Session
use kernel_programming.Prelude.{
  ℕ, List, [], ◌∷◌, false, true, none, some, ◌≡◌, refl, arith, if◌then◌else◌, ◌+◌,
}
use kernel_programming.Shell.Parse.{Parser, process_cmd, split_pipes}
use kernel_programming.Shell.Parse.Total.{process_cmd_total}
use kernel_programming.Shell.Parse.Words.{with_args, process_cmd-join}
use kernel_programming.Shell.Jobs.{
  get_job, Job, Shell, exited, reap, update_process_status, wait_job, replace_procs, all_status,
  change_status,
}
use kernel_programming.Shell.Jobs.Update.{
  AllLive, IsUpdated, update_process_status-known, reap-AllLive,
}
use kernel_programming.Shell.Jobs.Wait.{waited, wait_job-head, wait_job-behind}
use kernel_programming.Shell.Exec.{System, run_job, goes_on}
use kernel_programming.Shell.Exec.Launch.{run_job-foreground}

abbrev pub line : List ℕ
line = b'l' ∷ b's' ∷ b' ' ∷ b'-' ∷ b'l' ∷ []

process_cmd_total_example : (q : Parser) × (process_cmd [] [] 5 line ≡ some q)
process_cmd_total_example = process_cmd_total [] [] 5 line (ground arith)

process_cmd-join_example :
    process_cmd [] [] 5 line ≡ some (with_args [] [] ((b'l' ∷ b's' ∷ []) ∷ (b'-' ∷ b'l' ∷ []) ∷ []))
process_cmd-join_example =
    process_cmd-join [] [] 5 (b'l' ∷ b's' ∷ []) ((b'-' ∷ b'l' ∷ []) ∷ [])
      ((refl, (refl, tt)), ((refl, (refl, tt)), tt)) (ground arith)

split_run : split_pipes (b'a' ∷ b'|' ∷ b'b' ∷ []) ≡ (b'a' ∷ []) ∷ (b'b' ∷ []) ∷ []
unfolding split_pipes
split_run = refl

abbrev job_at : ℕ → ℕ → Job
job_at addr pid = record {
  addr = addr;
  pgid = pid;
  cmd = [];
  procs = record { pid = pid; status = 0 } ∷ [];
}

abbrev two_jobs : Shell
two_jobs = record {
  jobs = job_at 1 11 ∷ job_at 2 12 ∷ [];
  current = none;
  terminal = 12;
  shell_pid = 10;
  next_addr = 3;
}

update_process_status-known_example :
    (sh : Shell) × (update_process_status 12 (exited 0) two_jobs ≡ some sh)
    × IsUpdated 12 (exited 0) two_jobs.jobs sh.jobs
update_process_status-known_example = update_process_status-known 12 (exited 0) two_jobs refl

exits_done : all_status 2 (waited (λ p. exited 0) (job_at 2 12)).procs ≡ true
unfolding change_status
exits_done = refl

wait_job-behind_example :
    (sh : Shell) × (wait_job (λ p. exited 0) (job_at 2 12) two_jobs ≡ some sh)
    × (sh.jobs ≡ replace_procs 2 (waited (λ p. exited 0) (job_at 2 12)).procs (job_at 2 12 ∷ []))
    × (update_process_status 11 (exited 0) sh ≡ none)
wait_job-behind_example =
    wait_job-behind (λ p. exited 0) (job_at 2 12) (job_at 1 11) (job_at 2 12 ∷ []) two_jobs 11
      (exited 0) refl (ground arith) exits_done refl refl

found_run : get_job 12 two_jobs.jobs ≡ some (job_at 2 12)
unfolding get_job
found_run = refl

abbrev pub answers : System
answers = record {
  first_reap = [];
  second_reap = [];
  fork = λ i. 20 + i;
  wait = λ p. exited 0;
  kill_ok = λ p. true;
  chdir = λ d. none;
  home = [];
  atoi = λ s. 0;
}
