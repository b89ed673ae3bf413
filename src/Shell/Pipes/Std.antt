-- ===== src/Shell/Pipes/Std.antt =====
-- The standard descriptors of a process of HW2.3-Shell/myshell.c, and what redirections make of them.
use kernel_programming.Prelude.{
  ℕ, zero, suc, ◌≤◌, ◌≡◌, ◌≢◌, Bool, List, [], ◌∷◌, Option, some, none, ◌==◌, if◌then◌else◌, arith,
  ◌<◌, if_cases, refl, subst, sym, ap, ◌∙◌,
}
use kernel_programming.Shell.Parse.{Redirect, truncate_out, append_out, out_and_err, read_in}
use kernel_programming.Shell.Pipes.{
  End, opened, Fds, get_fd, close, dup2, lowest, put_fd, dup_over, redirect, redirect_all,
}
use kernel_programming.Shell.Pipes.Table.{get_fd-close, get_fd-dup2, get_fd-alloc, get_fd-lowest}

-- Standard input, output and error of a process.
pub record Std : Type 0 where
  pub input : Option End
  pub output : Option End
  pub error : Option End

abbrev pub std_of : Fds → Std
std_of t = record { input = get_fd t 0; output = get_fd t 1; error = get_fd t 2 }

pub record IsStd (s : Std) : Type 0 where
  pub input : s.input ≢ none
  pub output : s.output ≢ none
  pub error : s.error ≢ none

-- What a redirection promises, where the file can be opened.
abbrev pub opened_std : Redirect → Option End → Std → Std
opened_std (truncate_out _) e s = record s { output = e }
opened_std (append_out _) e s = record s { output = e }
opened_std (out_and_err _) e s = record s { output = e; error = e }
opened_std (read_in _) e s = record s { input = e }

abbrev pub redirect_std : (Redirect → Bool) → Redirect → Std → Std
redirect_std can_open r s = if can_open r then opened_std r (some (opened r)) s else s

abbrev pub redirect_std_all : (Redirect → Bool) → List Redirect → Std → Std
redirect_std_all can_open [] s = s
redirect_std_all can_open (r ∷ rest) s = redirect_std_all can_open rest (redirect_std can_open r s)

pub std_used : (t : Fds) (i : ℕ) → IsStd (std_of t) → i < 3 → get_fd t i ≢ none
std_used t zero h p = h.input
std_used t (suc zero) h p = h.output
std_used t (suc (suc zero)) h p = h.error
std_used t (suc (suc (suc i))) h p = absurd (omega arith)

pub std_free : (t : Fds) (i : ℕ) → IsStd (std_of t) → get_fd t i ≡ none → 3 ≤ i
std_free t zero h e = absurd (h.input e)
std_free t (suc zero) h e = absurd (h.output e)
std_free t (suc (suc zero)) h e = absurd (h.error e)
std_free t (suc (suc (suc i))) h e = omega arith

get_fd-opened :
    (t : Fds) (n j i : ℕ) (e : End)
    → get_fd t n ≡ some e
    → 3 ≤ n
    → i < 3
    → get_fd (close n (dup2 n j t)) i ≡ (if i == j then some e else get_fd t i)
get_fd-opened t n j i e h p q =
    grind (arith, get_fd-close (dup2 n j t) n i, get_fd-dup2 t n j i e h)

pub Std-ext : (s s' : Std) → s.input ≡ s'.input → s.output ≡ s'.output → s.error ≡ s'.error → s ≡ s'
Std-ext s s' h k l = cc

module _ (t : Fds) (e : End) (std : IsStd (std_of t)) where
  abbrev t' : Fds
  t' = put_fd (lowest t) e t

  far : 3 ≤ lowest t
  far = std_free t (lowest t) std (get_fd-lowest t)

  at_new : get_fd t' (lowest t) ≡ some e
  at_new = grind (arith, get_fd-alloc t (lowest t) e)

  at_old : (i : ℕ) → i < 3 → get_fd t' i ≡ get_fd t i
  at_old i p = grind (arith, get_fd-alloc t i e, far)

  at_one :
      (j i : ℕ)
      → i < 3
      → get_fd (close (lowest t) (dup2 (lowest t) j t')) i ≡ (if i == j then some e else get_fd t i)
  at_one j i p = grind (arith, get_fd-opened t' (lowest t) j i e at_new far p, at_old i p)

  at_two :
      (i : ℕ)
      → i < 3
      → get_fd (close (lowest t) (dup2 (lowest t) 2 (dup2 (lowest t) 1 t'))) i
        ≡ (if i == 2 then some e else if i == 1 then some e else get_fd t i)
  at_two i p =
      let n = lowest t in
      let kept : get_fd (dup2 n 1 t') n ≡ some e =
        grind (arith, get_fd-dup2 t' n 1 n e at_new, at_new, far) in
      grind (
        arith,
        get_fd-opened (dup2 n 1 t') n 2 i e kept far p,
        get_fd-dup2 t' n 1 i e at_new,
        at_old i p,
      )

std_of-redirect :
    (can_open : Redirect → Bool) (r : Redirect) (t : Fds)
    → IsStd (std_of t)
    → std_of (redirect can_open r t) ≡ redirect_std can_open r (std_of t)
unfolding redirect
std_of-redirect can_open r t h =
    if_cases (λ t'. std_of t' ≡ redirect_std can_open r (std_of t)) (can_open r) _ _
      (λ e. rw e (opens r)) (λ e. rw e refl)
  where
    opens :
        (r : Redirect)
        → std_of (close (lowest t) (dup_over r (lowest t) (put_fd (lowest t) (opened r) t)))
          ≡ opened_std r (some (opened r)) (std_of t)
    opens (truncate_out p) =
        Std-ext _ _ (at_one t _ h 1 0 (omega arith)) (at_one t _ h 1 1 (omega arith))
          (at_one t _ h 1 2 (omega arith))
    opens (append_out p) =
        Std-ext _ _ (at_one t _ h 1 0 (omega arith)) (at_one t _ h 1 1 (omega arith))
          (at_one t _ h 1 2 (omega arith))
    opens (out_and_err p) =
        Std-ext _ _ (at_two t _ h 0 (omega arith)) (at_two t _ h 1 (omega arith))
          (at_two t _ h 2 (omega arith))
    opens (read_in p) =
        Std-ext _ _ (at_one t _ h 0 0 (omega arith)) (at_one t _ h 0 1 (omega arith))
          (at_one t _ h 0 2 (omega arith))

IsStd-redirect_std :
    (can_open : Redirect → Bool) (r : Redirect) (s : Std)
    → IsStd s
    → IsStd (redirect_std can_open r s)
IsStd-redirect_std can_open r s h = if_cases IsStd (can_open r) _ _ (λ _. opens r) (λ _. h)
  where
    opens : (r : Redirect) → IsStd (opened_std r (some (opened r)) s)
    opens (truncate_out p) = record { input = h.input; output = ground arith; error = h.error }
    opens (append_out p) = record { input = h.input; output = ground arith; error = h.error }
    opens (out_and_err p) = record { input = h.input; output = ground arith; error = ground arith }
    opens (read_in p) = record { input = ground arith; output = h.output; error = h.error }

-- In a process whose standard descriptors are open, the redirections of a command take effect on
-- them in their order, and one that fails to open changes nothing.
pub std_of-redirect_all :
    (can_open : Redirect → Bool) (rs : List Redirect) (t : Fds)
    → IsStd (std_of t)
    → std_of (redirect_all can_open rs t) ≡ redirect_std_all can_open rs (std_of t)
std_of-redirect_all can_open [] t h = refl
std_of-redirect_all can_open (r ∷ rs) t h =
    let e = std_of-redirect can_open r t h in
    std_of-redirect_all can_open rs (redirect can_open r t)
      (subst IsStd (sym e) (IsStd-redirect_std can_open r (std_of t) h))
    ∙ ap (redirect_std_all can_open rs) e
