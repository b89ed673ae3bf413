-- ===== src/Shell/Pipes.antt =====
-- HW2.3-Shell/myshell.c, the descriptors of a pipeline: `pipe`, `fork`, `dup` and `close` in the loop
-- of `exec_job`, and the files that `process_redirection` opens in the child. A descriptor table is
-- a list, a call takes the lowest number that is free, and no call fails for want of descriptors.
pub mod Table
pub mod Std
pub mod Child
pub mod Wired
pub mod Writers
use kernel_programming.Prelude.{
  ℕ, zero, suc, ◌+◌, Bool, true, false, List, [], ◌∷◌, Option, some, none, if◌then◌else◌,
}
use kernel_programming.Shell.Parse.{Redirect, truncate_out, append_out, out_and_err, read_in}

-- What a descriptor refers to: a file that was open before, an end of a pipe, or an opened file.
pub data End : Type 0 where
  initial reads writes : ℕ → End
  opened : Redirect → End

abbrev pub Fds : Type 0
Fds = List (Option End)

abbrev pub get_fd : Fds → ℕ → Option End
get_fd [] i = none
get_fd (e ∷ t) zero = e
get_fd (e ∷ t) (suc i) = get_fd t i

unfoldable pub close : ℕ → Fds → Fds
close i [] = []
close zero (e ∷ t) = none ∷ t
close (suc i) (e ∷ t) = e ∷ close i t

unfoldable pub put_fd : ℕ → End → Fds → Fds
put_fd zero e [] = some e ∷ []
put_fd (suc i) e [] = none ∷ put_fd i e []
put_fd zero e (_ ∷ t) = some e ∷ t
put_fd (suc i) e (x ∷ t) = x ∷ put_fd i e t

-- The lowest free number, and the table with the end there.
unfoldable pub lowest : Fds → ℕ
lowest [] = 0
lowest (none ∷ t) = 0
lowest (some _ ∷ t) = suc (lowest t)

abbrev pub alloc : End → Fds → Fds
alloc e t = put_fd (lowest t) e t

-- A number that is not open changes nothing.
abbrev pub alloc_open : Option End → Fds → Fds
alloc_open none t = t
alloc_open (some e) t = alloc e t

abbrev pub dup : ℕ → Fds → Fds
dup i t = alloc_open (get_fd t i) t

abbrev pub put_open : ℕ → Option End → Fds → Fds
put_open j none t = t
put_open j (some e) t = put_fd j e t

abbrev pub dup2 : ℕ → ℕ → Fds → Fds
dup2 i j t = put_open j (get_fd t i) t

-- The standard descriptors that the new one `n` is put over.
abbrev pub dup_over : Redirect → ℕ → Fds → Fds
dup_over (truncate_out _) n t = dup2 n 1 t
dup_over (append_out _) n t = dup2 n 1 t
dup_over (out_and_err _) n t = dup2 n 2 (dup2 n 1 t)
dup_over (read_in _) n t = dup2 n 0 t

-- `open` and what follows; after a failed `open` neither `dup2` nor `close` changes the table.
unfoldable pub redirect : (Redirect → Bool) → Redirect → Fds → Fds
redirect can_open r t =
    if can_open r then close (lowest t) (dup_over r (lowest t) (alloc (opened r) t)) else t

abbrev pub redirect_all : (Redirect → Bool) → List Redirect → Fds → Fds
redirect_all can_open [] t = t
redirect_all can_open (r ∷ rest) t = redirect_all can_open rest (redirect can_open r t)

unfoldable pub wire_in : ℕ → ℕ → Fds → Fds
wire_in input fd0 t = close input (close fd0 (dup input (close 0 t)))

unfoldable pub wire_out : ℕ → Fds → Fds
wire_out fd1 t = close fd1 (dup fd1 (close 1 t))

-- The child's side, up to `process_cmd`.
abbrev pub child : Bool → Bool → ℕ → ℕ → ℕ → Fds → Fds
child first last input fd0 fd1 t =
    let t' = if first then t else wire_in input fd0 t in if last then t' else wire_out fd1 t'

abbrev pub is_last : List (List Redirect) → Bool
is_last [] = true
is_last (_ ∷ _) = false

-- The table of a process behind `pipe(fd)`, when the pipe is the `k`th, and fd[1].
abbrev pub piped : ℕ → Fds → Fds
piped k t = alloc (writes k) (alloc (reads k) t)

abbrev pub fd1_of : ℕ → Fds → ℕ
fd1_of k t = lowest (alloc (reads k) t)

-- The loop over the commands, each with its redirections: the children's tables at `execvpe`, and
-- the table of the shell at the end. `input` is the variable `in`.
unfoldable pub connect :
    (Redirect → Bool) → Bool → ℕ → ℕ → Fds → List (List Redirect) → List Fds × Fds
unfolding redirect wire_in wire_out
connect can_open first input k t [] = ([], t)
connect can_open first input k t (rs ∷ cmds) =
    let t' = piped k t in
    let fd1 = fd1_of k t in
    let (children, shell) = connect can_open false (lowest t) (k + 1) (close fd1 t') cmds in
    (
      redirect_all can_open rs (child first (is_last cmds) input (lowest t) fd1 t') ∷ children,
      shell,
    )
