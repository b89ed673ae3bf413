-- ===== src/Shell/Line/Trim.antt =====
-- The trailing blanks in `get_cmd_line` of HW2.3-Shell/myshell.c.
use mathlib.Core.List.{reverse, reverse-append, reverse-reverse, reverse-cons, append_assoc}
use kernel_programming.Prelude.{
  ℕ, zero, suc, ◌≡◌, ◌≢◌, refl, true, false, List, [], ◌∷◌, ◌++◌, some, arith, length, drop, ap,
  ◌∙◌,
}
use kernel_programming.Shell.Parse.{is_blank, skip_blanks, space, tab}
use kernel_programming.Shell.Line.{
  get_cmd_line, command, underrun, is_end, trimmed, text_eq, is_prefix, prompt_dir, trim_end,
  drop_last, reverse,
}

abbrev pub spaces : ℕ → List ℕ
spaces zero = []
spaces (suc n) = space ∷ spaces n

-- Trailing spaces go, if the last other character and the one before it are no blanks.
trim_end-spaces :
    (n c d : ℕ) (s : List ℕ)
    → c ≢ space
    → d ≢ tab
    → trim_end (spaces n ++ c ∷ d ∷ s) ≡ some (c ∷ d ∷ s)
unfolding trim_end
trim_end-spaces zero c d s hc hd = ground arith
trim_end-spaces (suc zero) c d s hc hd = ground arith
trim_end-spaces (suc (suc n)) c d s hc hd = trim_end-spaces (suc n) c d s hc hd

is_prefix-append : (s t : List ℕ) → is_prefix s (s ++ t) ≡ true
unfolding is_prefix
is_prefix-append [] t = refl
is_prefix-append (c ∷ s) t = ground (arith, is_prefix-append s t)

text_eq-append : (s : List ℕ) (c : ℕ) (t : List ℕ) → text_eq s (s ++ c ∷ t) ≡ false
unfolding text_eq
text_eq-append [] c t = refl
text_eq-append (d ∷ s) c t = ground (arith, text_eq-append s c t)

drop-append : (s t : List ℕ) → drop (length s) (s ++ t) ≡ t
drop-append [] t = refl
drop-append (c ∷ s) t = drop-append s t

text_eq_refl : (s : List ℕ) → text_eq s s ≡ true
unfolding text_eq
text_eq_refl [] = refl
text_eq_refl (c ∷ s) = ground (arith, text_eq_refl s)

-- In the home directory the prompt shows '~'; anywhere whose path begins with the home directory's,
-- below it or beside it, the prompt shows what follows the home directory's path and one more
-- character.
pub prompt_dir-home :
    (home : List ℕ) (c : ℕ) (rest : List ℕ)
    → (prompt_dir home home ≡ b'~' ∷ []) × (prompt_dir home (home ++ c ∷ rest) ≡ rest)
unfolding prompt_dir
prompt_dir-home home c rest = (
  rw (text_eq_refl home),
  rw (text_eq-append home c rest, is_prefix-append home (c ∷ rest), drop-append home (c ∷ rest)),
)

drop_last-append : (s : List ℕ) (c : ℕ) → drop_last (s ++ c ∷ []) ≡ s
drop_last-append [] c = refl
drop_last-append (d ∷ []) c = refl
drop_last-append (d ∷ e ∷ s) c = ap (◌∷◌ d) (drop_last-append (e ∷ s) c)

has_text : (s t : List ℕ) → is_end (skip_blanks t) ≡ false → is_end (skip_blanks (s ++ t)) ≡ false
unfolding skip_blanks
has_text [] t h = h
has_text (d ∷ s) t h = ground (arith, has_text s t h)

text_start : (c : ℕ) (s : List ℕ) → is_blank c ≡ false → is_end (skip_blanks (c ∷ s)) ≡ false
unfolding skip_blanks
text_start c s h = ground arith

-- A line with some text, by its reverse.
get_cmd_line_lem :
    (t r : List ℕ) (newline : ℕ)
    → is_end (skip_blanks t) ≡ false
    → reverse t ≡ r
    → get_cmd_line (some (t ++ newline ∷ [])) ≡ trimmed (trim_end r)
unfolding get_cmd_line
get_cmd_line_lem t r newline h e = rw (drop_last-append t newline, h, e)

spaces-snoc : (n : ℕ) → spaces n ++ space ∷ [] ≡ spaces (suc n)
spaces-snoc zero = refl
spaces-snoc (suc n) = ap (◌∷◌ space) (spaces-snoc n)

reverse-spaces : (n : ℕ) → reverse (spaces n) ≡ spaces n
reverse-spaces zero = refl
reverse-spaces (suc n) =
    reverse-append (space ∷ []) (spaces n)
    ∙ ap (λ s. s ++ space ∷ []) (reverse-spaces n)
    ∙ spaces-snoc n

reverse-tail :
    (s : List ℕ) (d c n : ℕ) → reverse (s ++ d ∷ c ∷ spaces n) ≡ spaces n ++ c ∷ d ∷ reverse s
reverse-tail s d c n = simp (reverse-append, reverse-cons, reverse-spaces, append_assoc)

-- A line is taken as it is, without its newline, whatever the number of spaces at its end, if its
-- last other character is no blank and the one before that is no tab.
pub get_cmd_line-spaces :
    (s : List ℕ) (d c n newline : ℕ)
    → is_blank c ≡ false
    → d ≢ tab
    → get_cmd_line (some ((s ++ d ∷ c ∷ spaces n) ++ newline ∷ [])) ≡ command (s ++ d ∷ c ∷ [])
get_cmd_line-spaces s d c n newline hc hd =
    get_cmd_line_lem (s ++ d ∷ c ∷ spaces n) _ newline
      (has_text s _ (has_text (d ∷ []) (c ∷ spaces n) (text_start c (spaces n) hc)))
      (reverse-tail s d c n)
    ∙ ap trimmed (trim_end-spaces n c d (reverse s) (ground arith) hd)
    ∙ ap command (simp (reverse-cons, reverse-reverse, append_assoc))

-- A command of one character that is no blank makes the loop read in front of the buffer.
pub get_cmd_line-underrun :
    (c newline : ℕ) → is_blank c ≡ false → get_cmd_line (some (c ∷ newline ∷ [])) ≡ underrun
unfolding trim_end
get_cmd_line-underrun c newline h =
    get_cmd_line_lem (c ∷ []) (c ∷ []) newline (text_start c [] h) refl ∙ ground arith

trim_end-tab :
    (c d e : ℕ) (s : List ℕ)
    → c ≢ space
    → d ≢ space
    → e ≢ tab
    → trim_end (c ∷ tab ∷ d ∷ e ∷ s) ≡ some (d ∷ e ∷ s)
unfolding trim_end
trim_end-tab c d e s hc hd he = ground arith

-- A tab before the last character makes that character go too.
pub get_cmd_line-tab :
    (s : List ℕ) (e d c newline : ℕ)
    → is_blank c ≡ false
    → is_blank d ≡ false
    → e ≢ tab
    → get_cmd_line (some ((s ++ e ∷ d ∷ tab ∷ c ∷ []) ++ newline ∷ [])) ≡ command (s ++ e ∷ d ∷ [])
get_cmd_line-tab s e d c newline hc hd he =
    get_cmd_line_lem (s ++ e ∷ d ∷ tab ∷ c ∷ []) (c ∷ tab ∷ d ∷ e ∷ reverse s) newline
      (has_text s _ (has_text (e ∷ []) _ (text_start d (tab ∷ c ∷ []) hd))) (simp (reverse-append))
    ∙ ap trimmed (trim_end-tab c d e (reverse s) (ground arith) (ground arith) he)
    ∙ ap command (simp (reverse-cons, reverse-reverse, append_assoc))
