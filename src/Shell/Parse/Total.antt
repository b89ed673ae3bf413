-- ===== src/Shell/Parse/Total.antt =====
-- Termination of the argument parser of HW2.3-Shell/myshell.c: each round shortens the line.
use kernel_programming.Prelude.{
  ℕ, zero, suc, ◌≤◌, ◌≡◌, refl, List, [], ◌∷◌, arith, some, length, inl, inr, Option-cases,
}
use kernel_programming.Shell.Parse.{
  skip_blanks, split_path, get_path, advance, Redirect, redirected, process_redirection, Parser,
  parse_round, parse_loop, process_cmd, inner_round, other_round, append_out, truncate_out,
  out_and_err, read_in,
}

pub length-skip_blanks-le : (s : List ℕ) → length (skip_blanks s) ≤ length s
unfolding skip_blanks
length-skip_blanks-le [] = omega arith
length-skip_blanks-le (c ∷ s) = ground (arith, length-skip_blanks-le s)

length-split_path-le : (s : List ℕ) → length (split_path s).1 ≤ length s
unfolding split_path
length-split_path-le [] = omega arith
length-split_path-le (c ∷ s) = ground (arith, length-split_path-le s)

length-advance-le : (s : List ℕ) → length (advance s) ≤ length s
length-advance-le [] = omega arith
length-advance-le (c ∷ s) = omega arith

path_rest-le : (s t : List ℕ) → skip_blanks (advance s) ≡ t → length (get_path s).1 ≤ length t
unfolding get_path
path_rest-le s [] e = rw (e, get_path) (omega arith)
path_rest-le s (c ∷ t) e = rw (e, get_path) (omega (arith, length-split_path-le t))

length-get_path-le : (s : List ℕ) → length (get_path s).1 ≤ length (advance s)
length-get_path-le s =
    omega (arith, path_rest-le s (skip_blanks (advance s)) refl, length-skip_blanks-le (advance s))

redirected-le :
    (f : List ℕ → Redirect) (s : List ℕ) (r : Redirect) (rest : List ℕ)
    → redirected f (get_path s) ≡ some (r, rest)
    → length rest ≤ length (advance s)
redirected-le f s r rest e = ground (
  arith,
  length-get_path-le s,
  length-advance-le (get_path s).1,
  length-skip_blanks-le (advance (get_path s).1),
)

pub process_redirection-le :
    (c : ℕ) (s : List ℕ) (r : Redirect) (rest : List ℕ)
    → process_redirection (c ∷ s) ≡ some (r, rest)
    → length rest ≤ length s
unfolding process_redirection
process_redirection-le c s r rest e = ground (
  arith,
  redirected-le append_out s r rest,
  redirected-le truncate_out (c ∷ s) r rest,
  redirected-le out_and_err s r rest,
  redirected-le read_in (c ∷ s) r rest,
  length-advance-le s,
)

module _ (pid_text status_text : List ℕ) where
  inner_round-le :
      (p : Parser) (c d : ℕ) (s : List ℕ)
      → length (inner_round pid_text status_text p c d s).0 ≤ length (d ∷ s)
  inner_round-le p c d s = elim (Option-cases (process_redirection (c ∷ d ∷ s))) [
    | inl e ↦ ground (arith, e)
    | inr ((r, rest), e) ↦ ground (arith, e, process_redirection-le c (d ∷ s) r rest)
  ]

  other_round-le :
      (p : Parser) (c : ℕ) (s : List ℕ)
      → length (other_round pid_text status_text p c s).0 ≤ length s
  other_round-le p c [] = omega arith
  other_round-le p c (d ∷ s) = inner_round-le p c d s

  parse_round-le :
      (p : Parser) (c : ℕ) (s : List ℕ)
      → length (parse_round pid_text status_text p c s).0 ≤ length s
  parse_round-le p c s = ground (arith, length-skip_blanks-le s, other_round-le p c s)

  parse_loop_total :
      (fuel : ℕ) (s : List ℕ) (p : Parser)
      → length s ≤ fuel
      → (q : Parser) × (parse_loop pid_text status_text fuel s p ≡ some q)
  unfolding parse_loop
  parse_loop_total fuel [] p h = (p, refl)
  parse_loop_total zero (c ∷ s) p h = absurd (omega arith)
  parse_loop_total (suc fuel) (c ∷ s) p h =
      let round = parse_round pid_text status_text p c s in
      parse_loop_total fuel round.0 round.1 (omega (arith, parse_round-le p c s))

  -- With at least as much fuel as the line has characters, the parser returns.
  pub process_cmd_total :
      (fuel : ℕ) (cmdline : List ℕ)
      → length cmdline ≤ fuel
      → (q : Parser) × (process_cmd pid_text status_text fuel cmdline ≡ some q)
  unfolding process_cmd
  process_cmd_total fuel cmdline h =
      parse_loop_total fuel (skip_blanks cmdline) _ (omega (arith, length-skip_blanks-le cmdline))

  -- More fuel than that changes nothing.
  pub parse_loop-fuel :
      (f g : ℕ) (s : List ℕ) (p : Parser)
      → length s ≤ f
      → length s ≤ g
      → parse_loop pid_text status_text f s p ≡ parse_loop pid_text status_text g s p
  unfolding parse_loop
  parse_loop-fuel f g [] p hf hg = refl
  parse_loop-fuel zero g (c ∷ s) p hf hg = absurd (omega arith)
  parse_loop-fuel (suc f) zero (c ∷ s) p hf hg = absurd (omega arith)
  parse_loop-fuel (suc f) (suc g) (c ∷ s) p hf hg =
      let round = parse_round pid_text status_text p c s in
      parse_loop-fuel f g round.0 round.1 (omega (arith, parse_round-le p c s))
        (omega (arith, parse_round-le p c s))
