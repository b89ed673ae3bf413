-- ===== src/Shell/Tests/Pipes.antt =====
-- A pipeline of HW2.3-Shell/myshell.c with a redirection in its second command.
use kernel_programming.Prelude.{◌≡◌, true, List, [], ◌∷◌, ◌++◌, refl, some, map, arith, zero, suc}
use kernel_programming.Shell.Parse.{split_pipes, Redirect, truncate_out}
use kernel_programming.Shell.Parse.Words.{with_args}
use kernel_programming.Shell.Jobs.{reap}
use kernel_programming.Shell.Exec.{exec_job, after_reap, run_job}
use kernel_programming.Shell.Session.{first_shell}
use kernel_programming.Shell.Pipeline.{
  Command, AllCommands, line_of, parsed, redirects_of, exec_job-pipeline,
}
use kernel_programming.Shell.Tests.{answers}
use kernel_programming.Shell.Pipes.{initial, Fds, connect}
use kernel_programming.Shell.Pipes.Std.{IsStd, std_of}
use kernel_programming.Shell.Pipes.Wired.{wires, connect-wires}
use kernel_programming.Shell.Pipes.Writers.{AllEnds, IsNoWriter, OwnPipes, connect-OwnPipes}

abbrev terminal : Fds
terminal = some (initial 0) ∷ some (initial 1) ∷ some (initial 2) ∷ []

abbrev commands : List (List Redirect)
commands = [] ∷ (truncate_out (b'f' ∷ []) ∷ []) ∷ []

terminal-IsStd : IsStd (std_of terminal)
terminal-IsStd = record { input = ground arith; output = ground arith; error = ground arith }

terminal-AllEnds : AllEnds IsNoWriter terminal
terminal-AllEnds zero e h m q = absurd (ground arith)
terminal-AllEnds (suc zero) e h m q = absurd (ground arith)
terminal-AllEnds (suc (suc zero)) e h m q = absurd (ground arith)
terminal-AllEnds (suc (suc (suc j))) e h m q = absurd (ground arith)

connect-wires_example :
    map std_of (connect (λ r. true) true 0 7 terminal commands).0
    ≡ wires (λ r. true) (std_of terminal) 7 (some (initial 0)) commands
connect-wires_example = connect-wires (λ r. true) commands 7 terminal terminal-IsStd

connect-OwnPipes_example :
    OwnPipes 7 (connect (λ r. true) true 0 7 terminal commands).0
    × AllEnds IsNoWriter (connect (λ r. true) true 0 7 terminal commands).1
connect-OwnPipes_example =
    connect-OwnPipes (λ r. true) commands 7 terminal terminal-IsStd terminal-AllEnds

-- "ls" and "wc -l".
abbrev ls : Command
ls = (b'l' ∷ b's' ∷ [], [])

abbrev wc : Command
wc = (b'w' ∷ b'c' ∷ [], (b'-' ∷ b'l' ∷ []) ∷ [])

two_plain : AllCommands (ls ∷ wc ∷ [])
two_plain = (
  (((refl, (refl, tt)), tt), ((ground arith, (ground arith, tt)), tt)),
  (
    (
      ((refl, (refl, tt)), ((refl, (refl, tt)), tt)),
      ((ground arith, (ground arith, tt)), ((ground arith, (ground arith, tt)), tt)),
    ),
    tt,
  ),
)

exec_job-pipeline_example :
    let line = line_of ls (wc ∷ []) in
    let parts = map (parsed [] []) (split_pipes line) in
    (exec_job answers (line ++ b'&' ∷ []) (first_shell 10 10)
      ≡ after_reap (reap [] (first_shell 10 10)) (run_job answers (line ++ b'&' ∷ []) true 1))
    × (parts
        ≡ some (with_args [] [] ((b'l' ∷ b's' ∷ []) ∷ []))
          ∷ some (with_args [] [] ((b'w' ∷ b'c' ∷ []) ∷ (b'-' ∷ b'l' ∷ []) ∷ []))
          ∷ [])
    × (map std_of (connect (λ r. true) true 0 7 terminal (map (redirects_of [] []) parts)).0
        ≡ wires (λ r. true) (std_of terminal) 7 (some (initial 0)) ([] ∷ [] ∷ []))
exec_job-pipeline_example =
    exec_job-pipeline [] [] answers (first_shell 10 10) true (λ r. true) 7 terminal ls wc []
      two_plain terminal-IsStd
