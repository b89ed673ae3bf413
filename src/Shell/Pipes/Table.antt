-- ===== src/Shell/Pipes/Table.antt =====
-- Descriptor tables of HW2.3-Shell/myshell.c: what is where after a call.
use kernel_programming.Prelude.{
  ℕ, zero, suc, ◌<◌, ◌≡◌, refl, ◌≢◌, [], ◌∷◌, some, none, ◌==◌, if◌then◌else◌, arith,
}
use kernel_programming.Shell.Pipes.{End, Fds, get_fd, close, put_fd, lowest, dup, dup2}

pub get_fd-close :
    (t : Fds) (i j : ℕ) → get_fd (close i t) j ≡ (if j == i then none else get_fd t j)
unfolding close
get_fd-close [] i j = ground arith
get_fd-close (e ∷ t) zero zero = refl
get_fd-close (e ∷ t) zero (suc j) = ground arith
get_fd-close (e ∷ t) (suc i) zero = ground arith
get_fd-close (e ∷ t) (suc i) (suc j) = ground (arith, get_fd-close t i j)

pub get_fd-put_fd :
    (t : Fds) (i j : ℕ) (e : End)
    → get_fd (put_fd i e t) j ≡ (if j == i then some e else get_fd t j)
unfolding put_fd
get_fd-put_fd [] zero zero e = refl
get_fd-put_fd [] zero (suc j) e = ground arith
get_fd-put_fd [] (suc i) zero e = ground arith
get_fd-put_fd [] (suc i) (suc j) e = ground (arith, get_fd-put_fd [] i j e)
get_fd-put_fd (x ∷ t) zero zero e = refl
get_fd-put_fd (x ∷ t) zero (suc j) e = ground arith
get_fd-put_fd (x ∷ t) (suc i) zero e = ground arith
get_fd-put_fd (x ∷ t) (suc i) (suc j) e = ground (arith, get_fd-put_fd t i j e)

-- The lowest free number is free, and every number below it is in use.
pub get_fd-lowest : (t : Fds) → get_fd t (lowest t) ≡ none
unfolding lowest
get_fd-lowest [] = refl
get_fd-lowest (none ∷ t) = refl
get_fd-lowest (some e ∷ t) = get_fd-lowest t

pub lowest_least :
    (t : Fds) (n : ℕ) → get_fd t n ≡ none → ((m : ℕ) → m < n → get_fd t m ≢ none) → lowest t ≡ n
unfolding lowest
lowest_least [] zero h low = refl
lowest_least [] (suc n) h low = absurd (low 0 (omega arith) refl)
lowest_least (none ∷ t) zero h low = refl
lowest_least (none ∷ t) (suc n) h low = absurd (low 0 (omega arith) refl)
lowest_least (some e ∷ t) zero h low = absurd (ground arith)
lowest_least (some e ∷ t) (suc n) h low =
    ground (arith, lowest_least t n h (λ m p. low (suc m) (omega arith)))

pub get_fd-alloc :
    (t : Fds) (j : ℕ) (e : End)
    → get_fd (put_fd (lowest t) e t) j ≡ (if j == lowest t then some e else get_fd t j)
get_fd-alloc t j e = get_fd-put_fd t (lowest t) j e

pub get_fd-dup2 :
    (t : Fds) (n j i : ℕ) (e : End)
    → get_fd t n ≡ some e
    → get_fd (dup2 n j t) i ≡ (if i == j then some e else get_fd t i)
get_fd-dup2 t n j i e h = rw h (get_fd-put_fd t j i e)

-- `close(n)` and `dup(i)` put what `i` refers to at `n`, where the numbers below `n` are in use.
pub get_fd-dup :
    (t : Fds) (i n j : ℕ) (e : End)
    → get_fd t i ≡ some e
    → i ≢ n
    → ((m : ℕ) → m < n → get_fd t m ≢ none)
    → get_fd (dup i (close n t)) j ≡ (if j == n then some e else get_fd t j)
get_fd-dup t i n j e h ne low =
    let open_i : get_fd (close n t) i ≡ some e = ground (arith, get_fd-close t n i) in
    let free : get_fd (close n t) n ≡ none = ground (arith, get_fd-close t n n) in
    let at : lowest (close n t) ≡ n =
      lowest_least (close n t) n free (λ m p q. low m p (ground (arith, get_fd-close t n m))) in
    rw (open_i, at, get_fd-put_fd (close n t) n j e, get_fd-close t n j) (ground arith)
