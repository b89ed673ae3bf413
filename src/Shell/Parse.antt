-- ===== src/Shell/Parse.antt =====
-- HW2.3-Shell/myshell.c, how a command becomes an argument vector and redirections: `is_delim`,
-- `get_path`, `process_redirection`, `process_cmd`, and the pipe split of `exec_job`.
-- A position in the line is the rest of the line from there. What `getpid` and `exit_status` print
-- as is a parameter, and the system calls of a redirection are listed in order. The buffers for the
-- arguments and paths are taken to be large enough.
pub mod Total
pub mod Words
pub mod Pipes
use kernel_programming.Prelude.{
  ℕ, zero, suc, Bool, true, false, not, ◌&&◌, ◌||◌, List, [], ◌∷◌, ◌++◌, Option, some, none, ◌==◌,
  if◌then◌else◌,
}

-- A char as a number.
abbrev pub space : ℕ
space = 0x20

abbrev pub tab : ℕ
tab = 9

abbrev pub single_quote : ℕ
single_quote = 0x27

abbrev pub double_quote : ℕ
double_quote = 0x22

abbrev pub is_delim : ℕ → ℕ → Bool
is_delim c delim = delim == c || (delim == space && c == tab)

abbrev pub is_blank : ℕ → Bool
is_blank c = c == space || c == tab

-- `cmdline[i]` and `cmdline[i + 1]`; the string ends in NUL.
abbrev pub char_at : List ℕ → ℕ
char_at [] = 0
char_at (c ∷ _) = c

abbrev pub next_char : List ℕ → ℕ
next_char [] = 0
next_char (_ ∷ s) = char_at s

abbrev pub advance : List ℕ → List ℕ
advance [] = []
advance (_ ∷ s) = s

unfoldable pub skip_blanks : List ℕ → List ℕ
skip_blanks [] = []
skip_blanks (c ∷ s) = let rest = skip_blanks s in if is_blank c then rest else c ∷ s

-- `while (!is_delim(cmdline[++i], ' '))` from a character on: the path and what follows.
pub split_path : List ℕ → List ℕ × List ℕ
split_path [] = ([], [])
split_path (c ∷ s) =
    let (path, rest) = split_path s in if is_delim c space then ([], c ∷ s) else (c ∷ path, rest)

-- The first character belongs to the path whatever it is.
pub get_path : List ℕ → List ℕ × List ℕ
unfolding skip_blanks
get_path s = elim (skip_blanks (advance s)) [
  | [] ↦ ([], [])
  | c ∷ rest ↦ let (path, after) = split_path rest in (c ∷ path, after)
]

-- The files that are opened over the standard descriptors.
pub data Redirect : Type 0 where
  truncate_out append_out out_and_err read_in : List ℕ → Redirect

abbrev pub redirected : (List ℕ → Redirect) → List ℕ × List ℕ → Option (Redirect × List ℕ)
redirected r (path, rest) = some (r path, skip_blanks (advance rest))

-- `none` is an unchanged index.
pub process_redirection : List ℕ → Option (Redirect × List ℕ)
unfolding get_path
process_redirection s =
    if char_at s == b'>'
    then if next_char s == b'>'
      then redirected append_out (get_path (advance s))
      else redirected truncate_out (get_path s)
    else if char_at s == b'&' && next_char s == b'>'
    then redirected out_and_err (get_path (advance s))
    else if char_at s == b'<'
    then redirected read_in (get_path s)
    else none

-- The loop's variables, but for the index.
pub record Parser : Type 0 where
  pub argv : List (List ℕ)
  pub arg : List ℕ
  pub delim : ℕ
  pub redirects : List Redirect

abbrev pub push_arg : Parser → Parser
push_arg p = record p { argv = p.argv ++ p.arg ∷ []; arg = [] }

abbrev pub put_text : Parser → List ℕ → Parser
put_text p text = record p { arg = p.arg ++ text }

abbrev pub after_end : List ℕ → Bool
after_end [] = true
after_end (_ ∷ _) = false

abbrev pub is_quote : ℕ → Bool
is_quote c = c == double_quote || c == single_quote

abbrev pub start : Parser
start = record { argv = []; arg = []; delim = space; redirects = [] }

module _ (pid_text status_text : List ℕ) where
  -- What a `$` at the head of the line stands for.
  abbrev pub variable_text : Parser → List ℕ → Option (List ℕ)
  variable_text p s =
      if not (p.delim == single_quote) && char_at s == b'$'
      then if next_char s == b'$'
        then some pid_text
        else if next_char s == b'?'
        then some status_text
        else none
      else none

  -- A round at a character that is not the last: a quote, a variable, a redirection or the
  -- character itself.
  abbrev pub inner_round : Parser → ℕ → ℕ → List ℕ → List ℕ × Parser
  inner_round p c d after =
      if is_quote c && p.delim == space
      then (d ∷ after, record p { delim = c })
      else elim (variable_text p (c ∷ d ∷ after)) [
        | some text ↦
            (after, if after_end after then push_arg (put_text p text) else put_text p text)
        | none ↦ elim (process_redirection (c ∷ d ∷ after)) [
          | none ↦ (d ∷ after, put_text p (c ∷ []))
          | some (r, rest) ↦ (rest, record p { redirects = p.redirects ++ r ∷ [] })
        ]
      ]

  abbrev pub other_round : Parser → ℕ → List ℕ → List ℕ × Parser
  other_round p c [] = ([], push_arg (if p.delim == space then put_text p (c ∷ []) else p))
  other_round p c (d ∷ after) = inner_round p c d after

  -- One round of the loop of `process_cmd` at the character `c`: the position and the variables for
  -- the next round. `break` leaves the empty line.
  abbrev pub parse_round : Parser → ℕ → List ℕ → List ℕ × Parser
  parse_round p c s =
      if is_delim c p.delim
      then (
        skip_blanks s,
        record (push_arg p) { delim = if is_quote p.delim then space else p.delim },
      )
      else other_round p c s

  -- Each round shortens the line, so its length is enough fuel.
  pub parse_loop : ℕ → List ℕ → Parser → Option Parser
  unfolding skip_blanks process_redirection
  parse_loop fuel [] p = some p
  parse_loop zero (c ∷ s) p = none
  parse_loop (suc fuel) (c ∷ s) p = let (rest, p') = parse_round p c s in parse_loop fuel rest p'

  -- `process_cmd` up to `execvpe`: the argument vector and the redirections.
  pub process_cmd : ℕ → List ℕ → Option Parser
  unfolding parse_loop
  process_cmd fuel cmdline = parse_loop fuel (skip_blanks cmdline) start

-- The split of `exec_job` at each '|'; the blanks right behind a '|' are skipped.
unfoldable pub split_from : Bool → List ℕ → List ℕ → List (List ℕ)
split_from skipping seen [] = seen ∷ []
split_from skipping seen (c ∷ s) = elim (c == b'|') [
  | true ↦ seen ∷ split_from true [] s
  | false ↦ elim (skipping && is_blank c) [
    | true ↦ split_from true seen s
    | false ↦ split_from false (seen ++ c ∷ []) s
  ]
]

unfoldable pub split_pipes : List ℕ → List (List ℕ)
unfolding split_from
split_pipes cmdline = split_from false [] cmdline
