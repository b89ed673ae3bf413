-- ===== src/Shell/Pipeline.antt =====
-- HW2.3-Shell/myshell.c, a line with '|' from its text to its processes: the split, the parser, the
-- descriptors and the job of `exec_job` taken together.
use mathlib.Core.List.{reverse, reverse-append, reverse-reverse, append_assoc}
use kernel_programming.Prelude.{
  ℕ, suc, ◌≡◌, refl, sym, ap, ◌∙◌, arith, Bool, true, false, List, [], ◌∷◌, ◌++◌, Option, none,
  some, length, map, if◌then◌else◌,
}
use kernel_programming.Shell.Parse.{Parser, Redirect, process_cmd, split_pipes, skip_blanks, space}
use kernel_programming.Shell.Parse.Words.{
  is_plain, AllPlain, AllWords, join, with_args, process_cmd-join,
}
use kernel_programming.Shell.Parse.Pipes.{
  HasNoPipe, IsSegment, AllSegments, join_pipes, split_pipes-join,
}
use kernel_programming.Shell.Jobs.{Shell, reap}
use kernel_programming.Shell.Exec.{
  System, split_async, count_rest, run_job, after_reap, exec_job, exec_cmds,
}
use kernel_programming.Shell.Pipes.{Fds, get_fd, connect}
use kernel_programming.Shell.Pipes.Std.{IsStd, std_of}
use kernel_programming.Shell.Pipes.Wired.{wires, connect-wires}

-- A command: its name and its arguments.
abbrev pub Command : Type 0
Command = List ℕ × List (List ℕ)

abbrev pub text : Command → List ℕ
text (w, ws) = join w ws

abbrev pub words : Command → List (List ℕ)
words (w, ws) = w ∷ ws

abbrev AllNoPipe : List (List ℕ) → Type 0
AllNoPipe [] = Unit {0}
AllNoPipe (w ∷ ws) = HasNoPipe w × AllNoPipe ws

-- Of plain characters, none of them '|'.
abbrev pub IsCommand : Command → Type 0
IsCommand c = AllWords (words c) × AllNoPipe (words c)

abbrev pub AllCommands : List Command → Type 0
AllCommands [] = Unit {0}
AllCommands (c ∷ cs) = IsCommand c × AllCommands cs

abbrev pub line_of : Command → List Command → List ℕ
line_of c cs = join_pipes (text c) (map text cs)

HasNoPipe-append : (s t : List ℕ) → HasNoPipe s → HasNoPipe t → HasNoPipe (s ++ t)
HasNoPipe-append [] t h g = g
HasNoPipe-append (c ∷ s) t h g = (h.0, HasNoPipe-append s t h.1 g)

HasNoPipe-join : (w : List ℕ) (ws : List (List ℕ)) → AllNoPipe (w ∷ ws) → HasNoPipe (join w ws)
HasNoPipe-join w [] h = h.0
HasNoPipe-join w (v ∷ ws) h =
    HasNoPipe-append w (space ∷ join v ws) h.0 (ground arith, HasNoPipe-join v ws h.1)

segment : (w : List ℕ) (ws : List (List ℕ)) → IsCommand (w, ws) → IsSegment (join w ws)
segment [] ws h = absurd (h.0.0)
segment (c ∷ w) [] h = (ground (arith, h.0.0.0), h.1.0)
segment (c ∷ w) (v ∷ ws) h = (ground (arith, h.0.0.0), HasNoPipe-join (c ∷ w) (v ∷ ws) h.1)

segments : (cs : List Command) → AllCommands cs → AllSegments (map text cs)
segments [] h = tt
segments (c ∷ cs) h = (segment c.0 c.1 h.0, segments cs h.1)

-- A text whose last character is plain.
EndsPlain : List ℕ → Type 0
EndsPlain s = (front : List ℕ) × (z : ℕ) × (s ≡ front ++ z ∷ []) × (is_plain z ≡ true)

EndsPlain-append : (s t : List ℕ) → EndsPlain t → EndsPlain (s ++ t)
unfolding EndsPlain
EndsPlain-append s t (front, z, e, h) =
    (s ++ front, z, ap (λ u. s ++ u) e ∙ sym (append_assoc s front (z ∷ [])), h)

EndsPlain-word : (c : ℕ) (w : List ℕ) → is_plain c ≡ true → AllPlain w → EndsPlain (c ∷ w)
unfolding EndsPlain
EndsPlain-word c [] h g = ([], c, refl, h)
EndsPlain-word c (d ∷ w) h g = EndsPlain-append (c ∷ []) (d ∷ w) (EndsPlain-word d w g.0 g.1)

EndsPlain-join : (w : List ℕ) (ws : List (List ℕ)) → AllWords (w ∷ ws) → EndsPlain (join w ws)
EndsPlain-join [] ws h = absurd (h.0)
EndsPlain-join (c ∷ w) [] h = EndsPlain-word c w h.0.0 h.0.1
EndsPlain-join (c ∷ w) (v ∷ ws) h =
    EndsPlain-append (c ∷ w) (space ∷ join v ws)
      (EndsPlain-append (space ∷ []) (join v ws) (EndsPlain-join v ws h.1))

EndsPlain-line : (c : Command) (cs : List Command) → AllCommands (c ∷ cs) → EndsPlain (line_of c cs)
EndsPlain-line c [] h = EndsPlain-join c.0 c.1 h.0.0
EndsPlain-line c (d ∷ cs) h =
    EndsPlain-append (text c) (b'|' ∷ line_of d cs)
      (EndsPlain-append (b'|' ∷ []) (line_of d cs) (EndsPlain-line d cs h.1))

split_async-plain : (s : List ℕ) → EndsPlain s → split_async s ≡ (false, s)
unfolding split_async EndsPlain skip_blanks
split_async-plain s (front, z, e, h) =
    let last : reverse s ≡ z ∷ reverse front = ap reverse e ∙ reverse-append front (z ∷ []) in
    rw last (ground (arith, h))

split_async-amp : (s : List ℕ) → split_async (s ++ b'&' ∷ []) ≡ (true, s)
unfolding split_async skip_blanks
split_async-amp s =
    let last : reverse (s ++ b'&' ∷ []) ≡ b'&' ∷ reverse s = reverse-append s (b'&' ∷ []) in
    rw (last, reverse-reverse s) refl

count_rest-map : (cs : List Command) → count_rest (map text cs) ≡ length cs
count_rest-map [] = refl
count_rest-map (c ∷ cs) = ap suc (count_rest-map cs)

-- The line as it is typed, with a '&' behind it for the background.
abbrev pub typed : Bool → List ℕ → List ℕ
typed async s = if async then s ++ b'&' ∷ [] else s

split_async-typed :
    (async : Bool) (s : List ℕ) → EndsPlain s → split_async (typed async s) ≡ (async, s)
split_async-typed true s h = split_async-amp s
split_async-typed false s h = split_async-plain s h

module _ (pid_text status_text : List ℕ) where
  -- What the process of a command makes of its text, and the files that it redirects to.
  abbrev pub parsed : List ℕ → Option Parser
  parsed s = process_cmd pid_text status_text (length s) s

  abbrev pub redirects_of : Option Parser → List Redirect
  redirects_of none = []
  redirects_of (some p) = p.redirects

  parsed-text :
      (c : Command)
      → IsCommand c
      → parsed (text c) ≡ some (with_args pid_text status_text (words c))
  parsed-text (w, ws) h =
      process_cmd-join pid_text status_text (length (join w ws)) w ws h.0 (omega arith)

  parsed-all :
      (cs : List Command)
      → AllCommands cs
      → map parsed (map text cs) ≡ map (λ c. some (with_args pid_text status_text (words c))) cs
  parsed-all [] h = refl
  parsed-all (c ∷ cs) h =
      ap (λ x. x ∷ map parsed (map text cs)) (parsed-text c h.0)
      ∙ ap (λ xs. some (with_args pid_text status_text (words c)) ∷ xs) (parsed-all cs h.1)

  no_redirects :
      (cs : List Command)
      → map redirects_of (map (λ c. some (with_args pid_text status_text (words c))) cs)
        ≡ map (λ c. []) cs
  no_redirects [] = refl
  no_redirects (c ∷ cs) = ap (λ l. [] ∷ l) (no_redirects cs)

  -- A line of two or more commands, with plain words that single spaces join, joined by '|' and with a
  -- '&' behind it or not. The shell starts one process for each command, and waits for them unless
  -- there is a '&'; each process has the words of its command as its arguments; and in a shell with
  -- open standard descriptors the first process reads where the shell does, each other the pipe that
  -- the one in front of it writes, and the last writes where the shell does.
  pub exec_job-pipeline :
      (sys : System) (sh : Shell) (async : Bool) (can_open : Redirect → Bool) (k : ℕ) (t : Fds)
      (c next : Command) (more : List Command)
      → AllCommands (c ∷ next ∷ more)
      → IsStd (std_of t)
      → let line = line_of c (next ∷ more) in
        let parts = map parsed (split_pipes line) in
        (exec_job sys (typed async line) sh
          ≡ after_reap
              (reap sys.second_reap sh)
              (run_job sys (typed async line) async (length (next ∷ more))))
        × (parts ≡ map (λ d. some (with_args pid_text status_text (words d))) (c ∷ next ∷ more))
        × (map std_of (connect can_open true 0 k t (map redirects_of parts)).0
            ≡ wires can_open (std_of t) k (get_fd t 0) (map (λ d. []) (c ∷ next ∷ more)))
  unfolding exec_job
  exec_job-pipeline sys sh async can_open k t c next more h std =
      let line = line_of c (next ∷ more) in
      let cs = c ∷ next ∷ more in
      let split : split_pipes line ≡ map text cs =
        split_pipes-join (text c) (map text (next ∷ more)) (HasNoPipe-join c.0 c.1 h.0.1)
          (segments (next ∷ more) h.1) in
      let parts = ap (map parsed) split ∙ parsed-all cs h in
      let cmd = typed async line in
      let runs = λ (n : ℕ). after_reap (reap sys.second_reap sh) (run_job sys cmd async (suc n)) in
      (
        ap (λ (r : Bool × List ℕ). exec_cmds sys cmd r.0 (split_pipes r.1) sh)
              (split_async-typed async line (EndsPlain-line c (next ∷ more) h))
            ∙ ap (λ l. exec_cmds sys cmd async l sh) split
            ∙ ap runs (count_rest-map more),
        parts,
        connect-wires can_open (map redirects_of (map parsed (split_pipes line))) k t std
            ∙ ap (wires can_open (std_of t) k (get_fd t 0))
                (ap (map redirects_of) parts ∙ no_redirects cs),
      )
