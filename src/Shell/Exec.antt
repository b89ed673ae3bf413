-- ===== src/Shell/Exec.antt =====
-- HW2.3-Shell/myshell.c, one line of input: `exec_internal_cmd`, `cd`, `exec_job`.
-- What the system answers during the line is a record; output is not modelled, but for the message
-- that `cd` chooses. An exit or a NULL dereference ends the shell.
pub mod Launch
use mathlib.Core.List.{reverse}
use Prim.Native.String.{String}
use kernel_programming.Prelude.{
  ℕ, zero, suc, ◌+◌, Bool, true, false, ◌&&◌, ◌||◌, List, [], ◌∷◌, ◌++◌, Option, some, none, ◌==◌,
  if◌then◌else◌,
}
use kernel_programming.Shell.Parse.{space, skip_blanks, split_pipes, char_at, advance}
use kernel_programming.Shell.Jobs.{
  Shell, WaitStatus, ResumeType, bg, fg, reap, resume, wait_job, launch, new_job, Job,
}
use kernel_programming.Shell.Line.{text_eq}

pub data Errno : Type 0 where
  eacces efault eio eloop enametoolong enoent enomem enotdir other_errno : Errno

-- The system calls' answers: what the two `reap` loops are told, the children's pids, the wait
-- status of a pid, whether a group can be signalled, and the errno of a failing `chdir`.
pub record System : Type 0 where
  pub first_reap : List (ℕ × WaitStatus)
  pub second_reap : List (ℕ × WaitStatus)
  pub fork : ℕ → ℕ
  pub wait : ℕ → WaitStatus
  pub kill_ok : ℕ → Bool
  pub chdir : List ℕ → Option Errno
  pub home : List ℕ
  pub atoi : List ℕ → ℕ

pub data Outcome : Type 0 where
  exits crashes : Outcome
  goes_on : Shell → Outcome
  -- `pgid` is read before it is set
  unset_pgid : Outcome
  -- not an internal command
  external : Shell → Outcome

abbrev pub after_call : Option Shell → Outcome
after_call none = crashes
after_call (some sh) = goes_on sh

-- `strtok` on spaces.
pub tokens : List ℕ → List ℕ → List (List ℕ)
tokens [] [] = []
tokens (a ∷ seen) [] = (a ∷ seen) ∷ []
tokens [] (c ∷ s) = elim (c == space) [ true ↦ tokens [] s | false ↦ tokens (c ∷ []) s ]
tokens (a ∷ seen) (c ∷ s) = elim (c == space) [
  | true ↦ (a ∷ seen) ∷ tokens [] s
  | false ↦ tokens (a ∷ seen ++ c ∷ []) s
]

pub data CdResult : Type 0 where
  moved : List ℕ → CdResult
  not_in_pwd : CdResult
  failed : Option String → CdResult

abbrev pub cd_message : Errno → Option String
cd_message eacces = some "Permission not allowed"
cd_message efault = some "Path points outside your accessible address space"
cd_message eio = some "An I/O error occurred"
cd_message eloop = some "Too many symbolic links were encountered in resolving path"
cd_message enametoolong = some "path is too long"
cd_message enoent = some "The directory does not exist"
cd_message enomem = some "Insufficient kernel memory was available"
cd_message enotdir = some "Target is not a directory"
cd_message other_errno = none

abbrev pub chdir_result : List ℕ → Option Errno → CdResult
chdir_result path none = moved path
chdir_result path (some e) = failed (cd_message e)

-- `cd` by the arguments behind its name; the answer to the home directory is not looked at.
pub cd : System → List (List ℕ) → CdResult
cd sys [] = moved sys.home
cd sys (path ∷ []) = chdir_result path (sys.chdir path)
cd sys (path ∷ _ ∷ _) = not_in_pwd

abbrev pub exit_text : List ℕ
exit_text = b'e' ∷ b'x' ∷ b'i' ∷ b't' ∷ []

abbrev pub jobs_text : List ℕ
jobs_text = b'j' ∷ b'o' ∷ b'b' ∷ b's' ∷ []

abbrev pub resume_args : System → ResumeType → Shell → List (List ℕ) → Outcome
resume_args sys type sh [] = after_call (resume sys.kill_ok sys.wait none type sh)
resume_args sys type sh (arg ∷ []) =
    after_call (resume sys.kill_ok sys.wait (some (sys.atoi arg)) type sh)
resume_args sys type sh (_ ∷ _ ∷ _) = unset_pgid

-- The commands told by argv[0]; without one, `strcmp` reads through NULL.
abbrev pub by_name : System → Shell → List (List ℕ) → Outcome
by_name sys sh [] = crashes
by_name sys sh (name ∷ args) =
    if text_eq name (b'c' ∷ b'd' ∷ [])
    then goes_on sh
    else if text_eq name (b'b' ∷ b'g' ∷ [])
    then resume_args sys bg sh args
    else if text_eq name (b'f' ∷ b'g' ∷ [])
    then resume_args sys fg sh args
    else external sh

abbrev pub internal : System → List ℕ → Shell → Outcome
internal sys cmd sh =
    if text_eq cmd exit_text || text_eq cmd (exit_text ++ space ∷ b'&' ∷ [])
    then exits
    else if text_eq cmd jobs_text
    then goes_on sh
    else by_name sys sh (tokens [] cmd)

abbrev pub after_reap : Option Shell → (Shell → Outcome) → Outcome
after_reap none next = crashes
after_reap (some sh) next = next sh

unfoldable pub exec_internal_cmd : System → List ℕ → Shell → Outcome
unfolding tokens
exec_internal_cmd sys cmd sh = after_reap (reap sys.first_reap sh) (internal sys cmd)

-- A '&' that only blanks follow is cut off, with the blanks.
unfoldable pub split_async : List ℕ → Bool × List ℕ
split_async cmdline =
    let back = skip_blanks (reverse cmdline) in
    if char_at back == b'&' then (true, reverse (advance back)) else (false, cmdline)

-- The pids of the children `i`, …, `i + n - 1`.
abbrev pub pids_from : (ℕ → ℕ) → ℕ → ℕ → List ℕ
pids_from fork i zero = []
pids_from fork i (suc n) = fork i ∷ pids_from fork (i + 1) n

abbrev pub count_rest : List (List ℕ) → ℕ
count_rest [] = 0
count_rest (_ ∷ cmds) = suc (count_rest cmds)

-- The fork loop for a pipeline of `suc n` commands, and the wait for a foreground job.
abbrev pub run_job : System → List ℕ → Bool → ℕ → Shell → Outcome
run_job sys cmd async n sh =
    let pids = pids_from sys.fork 1 n in
    let sh' = launch sh cmd (sys.fork 0) pids in
    if async
    then goes_on sh'
    else after_call (wait_job sys.wait (new_job sh cmd (sys.fork 0) pids) sh')

abbrev pub if_external : Outcome → (Shell → Outcome) → Outcome
if_external exits next = exits
if_external crashes next = crashes
if_external (goes_on sh) next = goes_on sh
if_external unset_pgid next = unset_pgid
if_external (external sh) next = next sh

-- An internal command is looked for only where there is no pipe.
abbrev pub exec_cmds : System → List ℕ → Bool → List (List ℕ) → Shell → Outcome
exec_cmds sys cmd async [] sh = crashes
exec_cmds sys cmd async (line ∷ []) sh =
    if_external (exec_internal_cmd sys line sh)
      (λ sh'. after_reap (reap sys.second_reap sh') (run_job sys cmd async 0))
exec_cmds sys cmd async (_ ∷ next ∷ more) sh =
    after_reap (reap sys.second_reap sh) (run_job sys cmd async (suc (count_rest more)))

unfoldable pub exec_job : System → List ℕ → Shell → Outcome
unfolding exec_internal_cmd split_async
exec_job sys cmdline sh =
    let (async, line) = split_async cmdline in exec_cmds sys cmdline async (split_pipes line) sh
