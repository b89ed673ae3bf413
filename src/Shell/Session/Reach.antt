-- ===== src/Shell/Session/Reach.antt =====
-- The shells that a session of HW2.3-Shell/myshell.c reaches.
use kernel_programming.Prelude.{
  ℕ, suc, ◌≡◌, refl, Bool, false, List, [], ◌∷◌, Option, some, none, if◌then◌else◌, if_cases, ◌||◌,
  ◌++◌, arith, subst,
}
use kernel_programming.Shell.Line.{LineResult, ignored, command, underrun, get_cmd_line, text_eq}
use kernel_programming.Shell.Parse.{split_pipes, space}
use kernel_programming.Shell.Jobs.{Shell, exited, ResumeType, bg, fg, reap, launch, new_job}
use kernel_programming.Shell.Exec.{
  System, Outcome, exits, crashes, goes_on, unset_pgid, external, after_call, resume_args, by_name,
  internal, after_reap, exec_internal_cmd, run_job, pids_from, if_external, exec_cmds, exec_job,
  count_rest, exit_text, jobs_text, tokens, split_async,
}
use kernel_programming.Shell.Exec.Launch.{run_job-foreground}
use kernel_programming.Shell.Session.{
  Round, run_command, run_round, and_then, run_shell, first_shell,
}
use kernel_programming.Shell.Session.Addresses.{
  IsAddressed, IfSome, IsAddressed-reap, IsAddressed-resume, IsAddressed-wait_job,
  IsBelow-AllElsewhere,
}

-- The shell behind an outcome, if there is one, has distinct addresses.
abbrev pub GoesOnAddressed : Outcome → Type 0
GoesOnAddressed exits = Unit
GoesOnAddressed crashes = Unit
GoesOnAddressed unset_pgid = Unit
GoesOnAddressed (goes_on sh) = IsAddressed sh
GoesOnAddressed (external sh) = IsAddressed sh

addressed_call : (r : Option Shell) → IfSome IsAddressed r → GoesOnAddressed (after_call r)
addressed_call none h = tt
addressed_call (some sh) h = h

addressed_reap :
    (r : Option Shell) (next : Shell → Outcome)
    → ((sh : Shell) → IsAddressed sh → GoesOnAddressed (next sh))
    → IfSome IsAddressed r
    → GoesOnAddressed (after_reap r next)
addressed_reap none next f h = tt
addressed_reap (some sh) next f h = f sh h

addressed_external :
    (o : Outcome) (next : Shell → Outcome)
    → ((sh : Shell) → IsAddressed sh → GoesOnAddressed (next sh))
    → GoesOnAddressed o
    → GoesOnAddressed (if_external o next)
addressed_external exits next f h = tt
addressed_external crashes next f h = tt
addressed_external unset_pgid next f h = tt
addressed_external (goes_on sh) next f h = h
addressed_external (external sh) next f h = f sh h

addressed_if :
    (b : Bool) (o o' : Outcome)
    → GoesOnAddressed o
    → GoesOnAddressed o'
    → GoesOnAddressed (if b then o else o')
addressed_if b o o' h h' = if_cases GoesOnAddressed b o o' (λ _. h) (λ _. h')

module _ (sys : System) where
  addressed_args :
      (type : ResumeType) (sh : Shell) (args : List (List ℕ))
      → IsAddressed sh
      → GoesOnAddressed (resume_args sys type sh args)
  addressed_args type sh [] h =
      addressed_call _ (IsAddressed-resume sys.kill_ok sys.wait none type sh h)
  addressed_args type sh (arg ∷ []) h =
      addressed_call _ (IsAddressed-resume sys.kill_ok sys.wait (some (sys.atoi arg)) type sh h)
  addressed_args type sh (_ ∷ _ ∷ _) h = tt

  addressed_name :
      (sh : Shell) (argv : List (List ℕ)) → IsAddressed sh → GoesOnAddressed (by_name sys sh argv)
  addressed_name sh [] h = tt
  addressed_name sh (name ∷ args) h =
      addressed_if (text_eq name (b'c' ∷ b'd' ∷ [])) (goes_on sh) _ h (
        addressed_if (text_eq name (b'b' ∷ b'g' ∷ [])) (resume_args sys bg sh args) _
          (addressed_args bg sh args h)
          (addressed_if (text_eq name (b'f' ∷ b'g' ∷ [])) (resume_args sys fg sh args) (external sh)
            (addressed_args fg sh args h) h))

  addressed_internal :
      (cmd : List ℕ) (sh : Shell) → IsAddressed sh → GoesOnAddressed (internal sys cmd sh)
  addressed_internal cmd sh h =
      addressed_if (text_eq cmd exit_text || text_eq cmd (exit_text ++ space ∷ b'&' ∷ [])) exits _
        tt
        (addressed_if (text_eq cmd jobs_text) (goes_on sh) (by_name sys sh (tokens [] cmd)) h
          (addressed_name sh (tokens [] cmd) h))

  addressed_run :
      (cmd : List ℕ) (async : Bool) (n : ℕ) (sh : Shell)
      → IsAddressed sh
      → GoesOnAddressed (run_job sys cmd async n sh)
  addressed_run cmd async n sh h =
      let pids = pids_from sys.fork 1 n in
      let launched : IsAddressed (launch sh cmd (sys.fork 0) pids) = (omega arith, h) in
      if_cases GoesOnAddressed async _ _ (λ _. launched)
        (λ _. addressed_call _ (
          IsAddressed-wait_job sys.wait (new_job sh cmd (sys.fork 0) pids)
            (launch sh cmd (sys.fork 0) pids) launched))

  addressed_cmds :
      (cmd : List ℕ) (async : Bool) (cmds : List (List ℕ)) (sh : Shell)
      → IsAddressed sh
      → GoesOnAddressed (exec_cmds sys cmd async cmds sh)
  unfolding exec_internal_cmd
  addressed_cmds cmd async [] sh h = tt
  addressed_cmds cmd async (line ∷ []) sh h =
      addressed_external (exec_internal_cmd sys line sh) _
        (λ sh' k.
          addressed_reap (reap sys.second_reap sh') _ (addressed_run cmd async 0)
            (IsAddressed-reap sys.second_reap sh' k))
        (addressed_reap (reap sys.first_reap sh) _ (addressed_internal line)
          (IsAddressed-reap sys.first_reap sh h))
  addressed_cmds cmd async (_ ∷ next ∷ more) sh h =
      addressed_reap (reap sys.second_reap sh) _ (addressed_run cmd async (suc (count_rest more)))
        (IsAddressed-reap sys.second_reap sh h)

  addressed_command :
      (line : LineResult) (sh : Shell) → IsAddressed sh → GoesOnAddressed (run_command sys line sh)
  unfolding exec_job
  addressed_command ignored sh h = h
  addressed_command (command cmdline) sh h =
      let (async, line) = split_async cmdline in
      addressed_cmds cmdline async (split_pipes line) sh h
  addressed_command underrun sh h = tt

addressed_then :
    (o : Outcome) (next : Shell → Outcome)
    → ((sh : Shell) → IsAddressed sh → GoesOnAddressed (next sh))
    → GoesOnAddressed o
    → GoesOnAddressed (and_then o next)
addressed_then exits next f h = tt
addressed_then crashes next f h = tt
addressed_then unset_pgid next f h = tt
addressed_then (goes_on sh) next f h = f sh h
addressed_then (external sh) next f h = h

-- Whatever is read and whatever the system answers, a session keeps the addresses of the jobs on the
-- list distinct and below the next one.
pub run_shell-IsAddressed :
    (rounds : List Round) (sh : Shell) → IsAddressed sh → GoesOnAddressed (run_shell rounds sh)
unfolding run_shell
run_shell-IsAddressed [] sh h = h
run_shell-IsAddressed (round ∷ rounds) sh h =
    addressed_then (run_round round sh) (run_shell rounds) (run_shell-IsAddressed rounds)
      (addressed_command round.system (get_cmd_line round.input) sh h)

-- Whatever a session has done since the shell started, a foreground pipeline of any length whose
-- processes all exit leaves the job list as it was and gives the terminal back to the shell.
pub run_shell-run_job :
    (rounds : List Round) (pid terminal : ℕ) (sh : Shell) (sys : System) (cmd : List ℕ) (n : ℕ)
    → run_shell rounds (first_shell pid terminal) ≡ goes_on sh
    → ((child : ℕ) → (code : ℕ) × (sys.wait child ≡ exited code))
    → (sh' : Shell) × (run_job sys cmd false n sh ≡ goes_on sh')
      × (sh'.jobs ≡ sh.jobs)
      × (sh'.terminal ≡ sh.shell_pid)
run_shell-run_job rounds pid terminal sh sys cmd n e exit =
    let h : IsAddressed sh =
      subst GoesOnAddressed e (run_shell-IsAddressed rounds (first_shell pid terminal) tt) in
    run_job-foreground sys cmd n sh
      (IsBelow-AllElsewhere sh.next_addr sh.next_addr sh.jobs (omega arith) h) exit

abbrev pub AtEnd : List Round → Type 0
AtEnd [] = Unit {0}
AtEnd (round ∷ rounds) = (round.input ≡ none) × AtEnd rounds

-- The end of the input does not end the shell: it goes on unchanged, however often it has read it.
pub run_shell-AtEnd :
    (rounds : List Round) (sh : Shell) → AtEnd rounds → run_shell rounds sh ≡ goes_on sh
unfolding run_shell get_cmd_line
run_shell-AtEnd [] sh h = refl
run_shell-AtEnd (round ∷ rounds) sh h = rw (h.0) (run_shell-AtEnd rounds sh h.1)
