-- ===== src/Shell/Pipes/Writers.antt =====
-- Who holds the ends of the pipes of a pipeline of HW2.3-Shell/myshell.c.
use kernel_programming.Prelude.{
  ℕ, ◌+◌, ◌≡◌, ◌≢◌, sym, Bool, false, List, [], ◌∷◌, some, if_cases, if◌then◌else◌, arith, subst,
  Option-cases, inl, inr, ◌<◌, zero, suc, length, ◌∙◌, true, ap,
}
use kernel_programming.Shell.Parse.{Redirect, truncate_out, append_out, out_and_err, read_in}
use kernel_programming.Shell.Pipes.{
  End, opened, reads, writes, Fds, get_fd, close, put_fd, dup_over, lowest, dup, dup2, redirect,
  redirect_all, wire_in, wire_out, child, is_last, piped, fd1_of, connect,
}
use kernel_programming.Shell.Pipes.Std.{IsStd, std_of}
use kernel_programming.Shell.Pipes.Table.{get_fd-close, get_fd-put_fd, get_fd-lowest}
use kernel_programming.Shell.Pipes.Child.{std_of-kept, get_fd-kept, fd1_ne, feeds_next}

-- All that a table refers to has a property.
abbrev pub AllEnds : (End → Type 0) → Fds → Type 0
AllEnds P t = (j : ℕ) (e : End) → get_fd t j ≡ some e → P e

module _ (P : End → Type 0) where
  AllEnds-close : (i : ℕ) (t : Fds) → AllEnds P t → AllEnds P (close i t)
  AllEnds-close i t h j e q = h j e (grind (arith, get_fd-close t i j))

  AllEnds-put_fd : (i : ℕ) (x : End) (t : Fds) → P x → AllEnds P t → AllEnds P (put_fd i x t)
  AllEnds-put_fd i x t p h j e q = grind (arith, get_fd-put_fd t i j x, h j e)

  AllEnds-dup : (i : ℕ) (t : Fds) → AllEnds P t → AllEnds P (dup i t)
  AllEnds-dup i t h = elim (Option-cases (get_fd t i)) [
    | inl q ↦ rw q h
    | inr (e, q) ↦ rw q (AllEnds-put_fd (lowest t) e t (h i e q) h)
  ]

  AllEnds-dup2 : (i j : ℕ) (t : Fds) → AllEnds P t → AllEnds P (dup2 i j t)
  AllEnds-dup2 i j t h = elim (Option-cases (get_fd t i)) [
    | inl q ↦ rw q h
    | inr (e, q) ↦ rw q (AllEnds-put_fd j e t (h i e q) h)
  ]

  AllEnds-dup_over : (r : Redirect) (n : ℕ) (t : Fds) → AllEnds P t → AllEnds P (dup_over r n t)
  AllEnds-dup_over (truncate_out p) n t h = AllEnds-dup2 n 1 t h
  AllEnds-dup_over (append_out p) n t h = AllEnds-dup2 n 1 t h
  AllEnds-dup_over (out_and_err p) n t h = AllEnds-dup2 n 2 _ (AllEnds-dup2 n 1 t h)
  AllEnds-dup_over (read_in p) n t h = AllEnds-dup2 n 0 t h

  AllEnds-redirect_all :
      (can_open : Redirect → Bool) (rs : List Redirect) (t : Fds)
      → ((r : Redirect) → P (opened r))
      → AllEnds P t
      → AllEnds P (redirect_all can_open rs t)
  unfolding redirect
  AllEnds-redirect_all can_open [] t p h = h
  AllEnds-redirect_all can_open (r ∷ rs) t p h =
      AllEnds-redirect_all can_open rs (redirect can_open r t) p (
        if_cases (AllEnds P) (can_open r) _ _
          (λ _.
            AllEnds-close (lowest t) _
              (AllEnds-dup_over r (lowest t) _ (AllEnds-put_fd (lowest t) (opened r) t (p r) h)))
          (λ _. h))

  AllEnds-child :
      (first last : Bool) (input fd0 fd1 : ℕ) (t : Fds)
      → AllEnds P t
      → AllEnds P (child first last input fd0 fd1 t)
  unfolding wire_in wire_out
  AllEnds-child first last input fd0 fd1 t h =
      let h' : AllEnds P (if first then t else wire_in input fd0 t) =
        if_cases (AllEnds P) first _ _ (λ _. h)
          (λ _.
            AllEnds-close input _
              (AllEnds-close fd0 _ (AllEnds-dup input _ (AllEnds-close 0 t h)))) in
      if_cases (AllEnds P) last _ _ (λ _. h')
        (λ _. AllEnds-close fd1 _ (AllEnds-dup fd1 _ (AllEnds-close 1 _ h')))

-- The only pipe that an end may write to is the `k`th.
abbrev pub WritesOnly : ℕ → End → Type 0
WritesOnly k e = (m : ℕ) → e ≡ writes m → m ≡ k

abbrev pub IsNoWriter : End → Type 0
IsNoWriter e = (m : ℕ) → e ≢ writes m

abbrev pub OwnPipes : ℕ → List Fds → Type 0
OwnPipes k [] = Unit
OwnPipes k (t ∷ ts) = AllEnds (WritesOnly k) t × OwnPipes (k + 1) ts

piped-WritesOnly : (k : ℕ) (t : Fds) → AllEnds IsNoWriter t → AllEnds (WritesOnly k) (piped k t)
piped-WritesOnly k t h =
    AllEnds-put_fd (WritesOnly k) _ (writes k) _ (λ m q. ground arith)
      (AllEnds-put_fd (WritesOnly k) _ (reads k) t (λ m q. ground arith)
        (λ j e q m z. absurd (h j e q m z)))

kept-IsNoWriter :
    (k : ℕ) (t : Fds)
    → IsStd (std_of t)
    → AllEnds IsNoWriter t
    → AllEnds IsNoWriter (close (fd1_of k t) (piped k t))
kept-IsNoWriter k t std h j e q m z = grind (arith, get_fd-kept k t std j, h j e, z)

connect_writers :
    (can_open : Redirect → Bool) (cmds : List (List Redirect)) (first : Bool) (input k : ℕ)
    (t : Fds)
    → IsStd (std_of t)
    → AllEnds IsNoWriter t
    → OwnPipes k (connect can_open first input k t cmds).0
      × AllEnds IsNoWriter (connect can_open first input k t cmds).1
unfolding connect
connect_writers can_open [] first input k t std h = (tt, h)
connect_writers can_open (rs ∷ cmds) first input k t std h =
    let next =
      connect_writers can_open cmds false (lowest t) (k + 1) (close (fd1_of k t) (piped k t))
        (subst IsStd (sym (std_of-kept k t std)) std) (kept-IsNoWriter k t std h) in
    (
      (
        AllEnds-redirect_all (WritesOnly k) can_open rs _ (λ r m q. ground arith)
            (AllEnds-child (WritesOnly k) first (is_last cmds) input (lowest t) (fd1_of k t)
              (piped k t) (piped-WritesOnly k t h)),
        next.0,
      ),
      next.1,
    )

-- In a shell with open standard descriptors that holds no writing end of a pipe, each command of a
-- pipeline starts with no writing end but that of its own pipe, and the shell holds none when all
-- are started.
pub connect-OwnPipes :
    (can_open : Redirect → Bool) (cmds : List (List Redirect)) (k : ℕ) (t : Fds)
    → IsStd (std_of t)
    → AllEnds IsNoWriter t
    → OwnPipes k (connect can_open true 0 k t cmds).0
      × AllEnds IsNoWriter (connect can_open true 0 k t cmds).1
connect-OwnPipes can_open cmds k t std h = connect_writers can_open cmds true 0 k t std h

kept-open :
    (k : ℕ) (t : Fds) (j : ℕ) (e : End)
    → IsStd (std_of t)
    → get_fd t j ≡ some e
    → get_fd (close (fd1_of k t) (piped k t)) j ≡ some e
kept-open k t j e std h =
    let ne = fd1_ne k t std j (λ z. ground arith) in
    let ne' : lowest t ≢ j = λ q. grind (arith, get_fd-lowest t) in
    grind (arith, get_fd-kept k t std j)

connect-open :
    (can_open : Redirect → Bool) (cmds : List (List Redirect)) (first : Bool) (input k : ℕ)
    (t : Fds) (j : ℕ) (e : End)
    → IsStd (std_of t)
    → get_fd t j ≡ some e
    → get_fd (connect can_open first input k t cmds).1 j ≡ some e
unfolding connect
connect-open can_open [] first input k t j e std h = h
connect-open can_open (rs ∷ cmds) first input k t j e std h =
    connect-open can_open cmds false (lowest t) (k + 1) (close (fd1_of k t) (piped k t)) j e
      (subst IsStd (sym (std_of-kept k t std)) std) (kept-open k t j e std h)

-- In a shell with open standard descriptors, a pipeline leaves the shell with the reading end of the
-- pipe of each of its commands.
pub connect-keeps_readers :
    (can_open : Redirect → Bool) (cmds : List (List Redirect)) (first : Bool) (input k : ℕ)
    (t : Fds) (i : ℕ)
    → IsStd (std_of t)
    → i < length cmds
    → (j : ℕ) × (get_fd (connect can_open first input k t cmds).1 j ≡ some (reads (k + i)))
unfolding connect
connect-keeps_readers can_open [] first input k t i std p = absurd (omega arith)
connect-keeps_readers can_open (rs ∷ cmds) first input k t zero std p = (
  lowest t,
  connect-open can_open cmds false (lowest t) (k + 1) (close (fd1_of k t) (piped k t)) (lowest t)
      (reads (k + 0)) (subst IsStd (sym (std_of-kept k t std)) std)
      ((feeds_next k t std).0 ∙ ap (λ n. some (reads n)) (ground arith)),
)
connect-keeps_readers can_open (rs ∷ cmds) first input k t (suc i) std p =
    let (j, e) =
      connect-keeps_readers can_open cmds false (lowest t) (k + 1) (close (fd1_of k t) (piped k t))
        i (subst IsStd (sym (std_of-kept k t std)) std) (omega arith) in
    (j, e ∙ ap (λ n. some (reads n)) (ground arith))
