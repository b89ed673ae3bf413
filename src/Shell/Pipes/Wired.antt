-- ===== src/Shell/Pipes/Wired.antt =====
-- The standard descriptors of the children of a pipeline of HW2.3-Shell/myshell.c.
use kernel_programming.Shell.Pipes.Child.{
  std_of-child, IsStd-child, std_of-kept, feeds_next, FeedsFrom,
}
use kernel_programming.Prelude.{
  ℕ, ◌+◌, ◌≡◌, Bool, List, [], ◌∷◌, Option, some, if◌then◌else◌, ◌∙◌, refl, true, false, sym, ap,
  subst, map,
}
use kernel_programming.Shell.Parse.{Redirect}
use kernel_programming.Shell.Pipes.{
  End, reads, writes, Fds, get_fd, close, is_last, lowest, piped, fd1_of, connect,
}
use kernel_programming.Shell.Pipes.Std.{Std, redirect_std_all, IsStd, std_of, std_of-redirect_all}

-- What a pipeline promises: each command reads the pipe that the one in front of it writes, and the
-- last one writes where the shell does; the redirections come on top of that.
pub wires : (Redirect → Bool) → Std → ℕ → Option End → List (List Redirect) → List Std
wires can_open shell k input [] = []
wires can_open shell k input (rs ∷ cmds) =
    redirect_std_all can_open rs (record shell {
      input = input;
      output = if is_last cmds then shell.output else some (writes k);
    })
    ∷ wires can_open shell (k + 1) (some (reads k)) cmds

connect_std :
    (can_open : Redirect → Bool) (cmds : List (List Redirect)) (first : Bool) (input k : ℕ)
    (t : Fds) (e : Option End)
    → IsStd (std_of t)
    → FeedsFrom first input t e
    → map std_of (connect can_open first input k t cmds).0 ≡ wires can_open (std_of t) k e cmds
unfolding connect wires
connect_std can_open [] first input k t e std f = refl
connect_std can_open (rs ∷ cmds) first input k t e std f =
    let kept = std_of-kept k t std in
    let start : Std = record {
      input = e;
      output = if is_last cmds then get_fd t 1 else some (writes k);
      error = get_fd t 2;
    } in
    let shell = close (fd1_of k t) (piped k t) in
    let next =
      connect_std can_open cmds false (lowest t) (k + 1) shell (some (reads k))
        (subst IsStd (sym kept) std) (feeds_next k t std) in
    let here =
      std_of-redirect_all can_open rs _ (IsStd-child k t std first (is_last cmds) input e f)
      ∙ ap (redirect_std_all can_open rs) (std_of-child k t std first (is_last cmds) input e f) in
    ap (λ s. s ∷ map std_of (connect can_open false (lowest t) (k + 1) shell cmds).0) here
    ∙ ap (λ ss. redirect_std_all can_open rs start ∷ ss)
        (next ∙ ap (λ s. wires can_open s (k + 1) (some (reads k)) cmds) kept)

-- In a shell whose standard descriptors are open, every command of a pipeline starts with the
-- descriptors that a pipeline promises: the first reads where the shell does, each other reads the
-- pipe that the one in front of it writes, the last writes where the shell does, all have the
-- shell's standard error, and each command's redirections take effect on top of that in order.
pub connect-wires :
    (can_open : Redirect → Bool) (cmds : List (List Redirect)) (k : ℕ) (t : Fds)
    → IsStd (std_of t)
    → map std_of (connect can_open true 0 k t cmds).0
      ≡ wires can_open (std_of t) k (get_fd t 0) cmds
connect-wires can_open cmds k t std = connect_std can_open cmds true 0 k t (get_fd t 0) std refl
