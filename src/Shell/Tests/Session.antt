-- ===== src/Shell/Tests/Session.antt =====
-- Sessions of HW2.3-Shell/myshell.c: a background command, and the end of the input.
use kernel_programming.Prelude.{◌≡◌, refl, false, List, [], ◌∷◌, some, none}
use kernel_programming.Shell.Jobs.{Shell, launch, reap}
use kernel_programming.Shell.Exec.{goes_on, run_job, exec_job, exec_internal_cmd, split_async}
use kernel_programming.Shell.Line.{get_cmd_line, text_eq}
use kernel_programming.Shell.Parse.{skip_blanks, split_pipes}
use kernel_programming.Shell.Session.{Round, run_shell, first_shell}
use kernel_programming.Shell.Session.Reach.{run_shell-run_job}
use kernel_programming.Shell.Tests.{answers, line}

abbrev rounds : List Round
rounds =
    record { input = some (b'l' ∷ b's' ∷ b'&' ∷ 10 ∷ []); system = answers }
    ∷ record { input = none; system = answers }
    ∷ []

abbrev after : Shell
after = launch (first_shell 10 10) (b'l' ∷ b's' ∷ b'&' ∷ []) 20 []

rounds_run : run_shell rounds (first_shell 10 10) ≡ goes_on after
unfolding run_shell get_cmd_line exec_job exec_internal_cmd split_async split_pipes skip_blanks
    text_eq reap
rounds_run = refl

run_shell-run_job_example :
    (sh : Shell) × (run_job answers line false 1 after ≡ goes_on sh)
    × (sh.jobs ≡ after.jobs)
    × (sh.terminal ≡ 10)
run_shell-run_job_example =
    run_shell-run_job rounds 10 10 after answers line 1 rounds_run (λ p. (0, refl))
