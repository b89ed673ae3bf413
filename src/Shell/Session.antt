-- ===== src/Shell/Session.antt =====
-- HW2.3-Shell/myshell.c, the loop of `main`: a line is read, an ignored one is passed over, any other
-- is run. `sigint_handler` only prints. The job list that `main` declares for itself is not used.
pub mod Addresses
pub mod Reach
use kernel_programming.Prelude.{ℕ, List, [], ◌∷◌, Option, none, some}
use kernel_programming.Shell.Line.{LineResult, ignored, command, underrun, get_cmd_line}
use kernel_programming.Shell.Jobs.{Shell}
use kernel_programming.Shell.Exec.{
  System, Outcome, exits, crashes, goes_on, unset_pgid, external, exec_job,
}

-- One round: what `fgets` reads, and what the system answers while the line is run.
pub record Round : Type 0 where
  pub input : Option (List ℕ)
  pub system : System

abbrev pub run_command : System → LineResult → Shell → Outcome
run_command sys ignored sh = goes_on sh
run_command sys (command cmdline) sh = exec_job sys cmdline sh
run_command sys underrun sh = crashes

abbrev pub run_round : Round → Shell → Outcome
run_round round sh = run_command round.system (get_cmd_line round.input) sh

abbrev pub and_then : Outcome → (Shell → Outcome) → Outcome
and_then exits next = exits
and_then crashes next = crashes
and_then unset_pgid next = unset_pgid
and_then (external sh) next = external sh
and_then (goes_on sh) next = next sh

-- The first rounds of the loop.
unfoldable pub run_shell : List Round → Shell → Outcome
run_shell [] sh = goes_on sh
run_shell (round ∷ rounds) sh = and_then (run_round round sh) (run_shell rounds)

-- The globals when `main` starts.
abbrev pub first_shell : ℕ → ℕ → Shell
first_shell pid terminal = record {
  jobs = [];
  current = none;
  terminal = terminal;
  shell_pid = pid;
  next_addr = 0;
}
