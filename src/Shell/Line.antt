-- ===== src/Shell/Line.antt =====
-- HW2.3-Shell/myshell.c, the prompt and the command line: `show_prompt` and `get_cmd_line`.
pub mod Trim
use mathlib.Core.List.{reverse}
use kernel_programming.Prelude.{
  ℕ, Bool, true, false, ◌&&◌, List, [], ◌∷◌, Option, some, none, ◌==◌, if◌then◌else◌, length, drop,
}
use kernel_programming.Shell.Parse.{space, tab, is_blank, skip_blanks}

-- `strcmp(a, b) == 0`, and `strncmp(a, b, strlen(a)) == 0`.
unfoldable pub text_eq : List ℕ → List ℕ → Bool
text_eq [] [] = true
text_eq [] (_ ∷ _) = false
text_eq (_ ∷ _) [] = false
text_eq (c ∷ s) (d ∷ t) = c == d && text_eq s t

pub is_prefix : List ℕ → List ℕ → Bool
is_prefix [] t = true
is_prefix (_ ∷ _) [] = false
is_prefix (c ∷ s) (d ∷ t) = c == d && is_prefix s t

-- The directory that the prompt shows.
unfoldable pub prompt_dir : List ℕ → List ℕ → List ℕ
unfolding text_eq is_prefix
prompt_dir home cwd =
    if text_eq home cwd
    then b'~' ∷ []
    else if is_prefix home cwd
    then drop 1 (drop (length home) cwd)
    else cwd

pub data LineResult : Type 0 where
  -- -1
  ignored : LineResult
  command : List ℕ → LineResult
  -- a read in front of the buffer
  underrun : LineResult

abbrev pub drop_last : List ℕ → List ℕ
drop_last [] = []
drop_last (c ∷ []) = []
drop_last (c ∷ d ∷ s) = c ∷ drop_last (d ∷ s)

-- `while (cmdline[--n] == ' ' || cmdline[--n] == '\t') cmdline[n] = '\0'` on the reversed line: the
-- second test looks one character further on.
pub trim_end : List ℕ → Option (List ℕ)
trim_end [] = none
trim_end (c ∷ []) = if c == space then trim_end [] else none
trim_end (c ∷ d ∷ s) = elim (c == space) [
  | true ↦ trim_end (d ∷ s)
  | false ↦ elim (d == tab) [ true ↦ trim_end s | false ↦ some (c ∷ d ∷ s) ]
]

abbrev pub trimmed : Option (List ℕ) → LineResult
trimmed none = underrun
trimmed (some s) = command (reverse s)

abbrev pub is_end : List ℕ → Bool
is_end [] = true
is_end (_ ∷ _) = false

-- What `fgets` read, without its last character; `none` is the end of the input.
unfoldable pub get_cmd_line : Option (List ℕ) → LineResult
unfolding trim_end skip_blanks
get_cmd_line none = ignored
get_cmd_line (some line) =
    let cmdline = drop_last line in
    if is_end (skip_blanks cmdline) then ignored else trimmed (trim_end (reverse cmdline))
