-- ===== src/Shell/Parse/Words.antt =====
-- Words joined by single spaces come back from the argument parser of HW2.3-Shell/myshell.c.
use mathlib.Core.List.{append_assoc, append-nil}
use kernel_programming.Prelude.{
  refl, ℕ, ◌≡◌, List, [], ◌∷◌, ◌++◌, arith, true, Bool, not, ◌||◌, ◌==◌, some, ap, Option, ◌∙◌, suc,
  length, ◌≤◌,
}
use kernel_programming.Shell.Parse.Total.{parse_loop-fuel}
use kernel_programming.Shell.Parse.{
  process_cmd, start, Parser, parse_round, process_redirection, is_blank, is_quote, space, put_text,
  push_arg, skip_blanks, parse_loop,
}

-- A character that means only itself: no blank, quote, '$' or redirection.
abbrev pub is_plain : ℕ → Bool
is_plain c = not (is_blank c || is_quote c || c == b'$' || c == b'>' || c == b'<' || c == b'&')

abbrev pub AllPlain : List ℕ → Type 0
AllPlain [] = Unit {0}
AllPlain (c ∷ s) = (is_plain c ≡ true) × AllPlain s

abbrev pub IsWord : List ℕ → Type 0
IsWord [] = ⊥
IsWord (c ∷ s) = (is_plain c ≡ true) × AllPlain s

abbrev pub AllWords : List (List ℕ) → Type 0
AllWords [] = Unit {0}
AllWords (w ∷ ws) = IsWord w × AllWords ws

-- A word and further ones, each behind a space.
abbrev pub join : List ℕ → List (List ℕ) → List ℕ
join w [] = w
join w (v ∷ ws) = w ++ space ∷ join v ws

module _ (pid_text status_text : List ℕ) where
  round_plain :
      (p : Parser) (c d : ℕ) (s : List ℕ)
      → p.delim ≡ space
      → is_plain c ≡ true
      → parse_round pid_text status_text p c (d ∷ s) ≡ (d ∷ s, put_text p (c ∷ []))
  unfolding process_redirection
  round_plain p c d s e h = ground arith

  round_last :
      (p : Parser) (c : ℕ)
      → p.delim ≡ space
      → is_plain c ≡ true
      → parse_round pid_text status_text p c [] ≡ ([], push_arg (put_text p (c ∷ [])))
  round_last p c e h = ground arith

  round_space :
      (p : Parser) (s : List ℕ)
      → p.delim ≡ space
      → parse_round pid_text status_text p space s ≡ (skip_blanks s, push_arg p)
  round_space p s e = ground arith

  put_text-put_text : (p : Parser) (s t : List ℕ) → put_text (put_text p s) t ≡ put_text p (s ++ t)
  put_text-put_text p s t = ap (λ a. record p { arg = a }) (append_assoc p.arg s t)

  put_text-nil : (p : Parser) → put_text p [] ≡ p
  put_text-nil p = ap (λ a. record p { arg = a }) (append-nil p.arg)

  abbrev run : List ℕ → Parser → Option Parser
  run s p = parse_loop pid_text status_text (length s) s p

  run_plain :
      (p : Parser) (c d : ℕ) (s : List ℕ)
      → p.delim ≡ space
      → is_plain c ≡ true
      → run (c ∷ d ∷ s) p ≡ run (d ∷ s) (put_text p (c ∷ []))
  unfolding parse_loop
  run_plain p c d s e h =
      ap (λ (r : List ℕ × Parser). parse_loop pid_text status_text (suc (length s)) r.0 r.1)
        (round_plain p c d s e h)

  -- The characters of a word are gathered up to what follows it.
  run_word :
      (w : List ℕ) (p : Parser) (d : ℕ) (s : List ℕ)
      → p.delim ≡ space
      → AllPlain w
      → run (w ++ d ∷ s) p ≡ run (d ∷ s) (put_text p w)
  run_word [] p d s e h = rw (put_text-nil p)
  run_word (c ∷ []) p d s e h = run_plain p c d s e h.0
  run_word (c ∷ x ∷ w) p d s e h =
      run_plain p c x (w ++ d ∷ s) e h.0
      ∙ run_word (x ∷ w) (put_text p (c ∷ [])) d s e h.1
      ∙ ap (run (d ∷ s)) (put_text-put_text p (c ∷ []) (x ∷ w))

  -- The last word ends the line.
  run_last :
      (c : ℕ) (w : List ℕ) (p : Parser)
      → p.delim ≡ space
      → IsWord (c ∷ w)
      → run (c ∷ w) p ≡ some (push_arg (put_text p (c ∷ w)))
  unfolding parse_loop
  run_last c [] p e h =
      ap (λ (r : List ℕ × Parser). parse_loop pid_text status_text 0 r.0 r.1) (round_last p c e h.0)
  run_last c (d ∷ w) p e h =
      run_plain p c d w e h.0
      ∙ run_last d w (put_text p (c ∷ [])) e h.1
      ∙ ap (λ q. some (push_arg q)) (put_text-put_text p (c ∷ []) (d ∷ w))

  skip_word : (c : ℕ) (s : List ℕ) → is_plain c ≡ true → skip_blanks (c ∷ s) ≡ c ∷ s
  unfolding skip_blanks
  skip_word c s h = ground arith

  abbrev pub with_args : List (List ℕ) → Parser
  with_args ws = record { argv = ws; arg = []; delim = space; redirects = [] }

  skip_join : (w : List ℕ) (ws : List (List ℕ)) → IsWord w → skip_blanks (join w ws) ≡ join w ws
  skip_join [] ws h = absurd h
  skip_join (c ∷ w) [] h = skip_word c w h.0
  skip_join (c ∷ w) (v ∷ ws) h = skip_word c (w ++ space ∷ join v ws) h.0

  -- A space hands the gathered word over.
  run-space :
      (p : Parser) (w : List ℕ) (ws : List (List ℕ))
      → p.delim ≡ space
      → IsWord w
      → run (space ∷ join w ws) p ≡ run (join w ws) (push_arg p)
  unfolding parse_loop
  run-space p w ws e h =
      ap (λ (r : List ℕ × Parser). parse_loop pid_text status_text (length (join w ws)) r.0 r.1)
        (round_space p (join w ws) e)
      ∙ ap (λ s. parse_loop pid_text status_text (length (join w ws)) s (push_arg p))
          (skip_join w ws h)

  run-join :
      (w : List ℕ) (ws done : List (List ℕ))
      → AllWords (w ∷ ws)
      → run (join w ws) (with_args done) ≡ some (with_args (done ++ w ∷ ws))
  run-join [] ws done h = absurd (h.0)
  run-join (c ∷ w) [] done h = run_last c w (with_args done) refl h.0
  run-join (c ∷ w) (v ∷ ws) done h =
      run_word (c ∷ w) (with_args done) space (join v ws) refl h.0
      ∙ run-space (put_text (with_args done) (c ∷ w)) v ws refl h.1.0
      ∙ run-join v ws (done ++ (c ∷ w) ∷ []) h.1
      ∙ ap (λ a. some (with_args a)) (append_assoc done ((c ∷ w) ∷ []) (v ∷ ws))

  -- Words of plain characters that are joined by single spaces come back as the argument vector,
  -- without redirections.
  pub process_cmd-join :
      (fuel : ℕ) (w : List ℕ) (ws : List (List ℕ))
      → AllWords (w ∷ ws)
      → length (join w ws) ≤ fuel
      → process_cmd pid_text status_text fuel (join w ws) ≡ some (with_args (w ∷ ws))
  unfolding process_cmd
  process_cmd-join fuel w ws h enough =
      ap (λ s. parse_loop pid_text status_text fuel s start) (skip_join w ws h.0)
      ∙ parse_loop-fuel pid_text status_text fuel (length (join w ws)) (join w ws) start enough
          (omega arith)
      ∙ run-join w ws [] h
