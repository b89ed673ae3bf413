-- ===== src/Shell/Pipes/Child.antt =====
-- The standard descriptors of one child of a pipeline of HW2.3-Shell/myshell.c.
use kernel_programming.Prelude.{
  ℕ, ◌≤◌, ◌≡◌, ◌≢◌, Bool, Option, some, none, ◌==◌, if◌then◌else◌, arith, ◌∙◌, refl, true, false,
  sym, ◌<◌, subst, if_cases,
}
use kernel_programming.Shell.Pipes.{
  End, reads, writes, Fds, get_fd, close, wire_in, wire_out, dup, alloc, lowest, piped, fd1_of,
  child,
}
use kernel_programming.Shell.Pipes.Std.{IsStd, std_of, Std-ext, std_free}
use kernel_programming.Shell.Pipes.Table.{get_fd-close, get_fd-dup, get_fd-lowest, get_fd-alloc}

-- The child's standard descriptors, when it is in the pipeline.
wire_in_lem :
    (t : Fds) (input fd0 j : ℕ) (e : End)
    → get_fd t input ≡ some e
    → 3 ≤ input
    → 3 ≤ fd0
    → get_fd (wire_in input fd0 t) j ≡ (
        if j == input
        then none
        else if j == fd0
        then none
        else if j == 0
        then some e
        else get_fd t j)
unfolding wire_in
wire_in_lem t input fd0 j e h p q =
    let dup_lem = get_fd-dup t input 0 j e h (λ z. omega arith) (λ m l. absurd (omega arith)) in
    grind (
      arith,
      get_fd-close (close fd0 (dup input (close 0 t))) input j,
      get_fd-close (dup input (close 0 t)) fd0 j,
      dup_lem,
    )

wire_out_lem :
    (t : Fds) (fd1 j : ℕ) (e : End)
    → get_fd t fd1 ≡ some e
    → 3 ≤ fd1
    → get_fd t 0 ≢ none
    → get_fd (wire_out fd1 t) j ≡ (if j == fd1 then none else if j == 1 then some e else get_fd t j)
unfolding wire_out
wire_out_lem t fd1 j e h p u =
    let dup_lem = get_fd-dup t fd1 1 j e h (λ z. omega arith) (λ m l n. u (ground arith)) in
    grind (arith, get_fd-close (dup fd1 (close 1 t)) fd1 j, dup_lem)

-- What a command's input is wired to, before its redirections.
abbrev pub FeedsFrom : Bool → ℕ → Fds → Option End → Type 0
FeedsFrom true input t e = get_fd t 0 ≡ e
FeedsFrom false input t e = (get_fd t input ≡ e) × (e ≢ none) × (3 ≤ input)

module _ (k : ℕ) (t : Fds) (std : IsStd (std_of t)) where
  abbrev fd0 : ℕ
  fd0 = lowest t

  abbrev fd1 : ℕ
  fd1 = fd1_of k t

  pub fd0_far : 3 ≤ fd0
  fd0_far = std_free t fd0 std (get_fd-lowest t)

  get_fd-reads :
      (j : ℕ) → get_fd (alloc (reads k) t) j ≡ (if j == fd0 then some (reads k) else get_fd t j)
  get_fd-reads j = get_fd-alloc t j (reads k)

  pub fd1_ne : (j : ℕ) → get_fd t j ≢ none → fd1 ≢ j
  fd1_ne j u e = u (grind (arith, get_fd-reads fd1, get_fd-lowest (alloc (reads k) t), e))

  pub fd1_ne_fd0 : fd1 ≢ fd0
  fd1_ne_fd0 e = grind (arith, get_fd-reads fd1, get_fd-lowest (alloc (reads k) t))

  pub fd1_far : 3 ≤ fd1
  fd1_far = ground (arith, fd1_ne 0 std.input, fd1_ne 1 std.output, fd1_ne 2 std.error)

  pub get_fd-piped :
      (j : ℕ)
      → get_fd (piped k t) j
        ≡ (if j == fd1 then some (writes k) else if j == fd0 then some (reads k) else get_fd t j)
  get_fd-piped j = get_fd-alloc (alloc (reads k) t) j (writes k) ∙ rw (get_fd-reads j) refl

  pub get_fd-kept :
      (j : ℕ)
      → get_fd (close fd1 (piped k t)) j
        ≡ (if j == fd1 then none else if j == fd0 then some (reads k) else get_fd t j)
  get_fd-kept j = grind (arith, get_fd-close (piped k t) fd1 j, get_fd-piped j)

  kept_below : (j : ℕ) → j < 3 → get_fd (close fd1 (piped k t)) j ≡ get_fd t j
  kept_below j p = grind (arith, get_fd-kept j, fd0_far, fd1_far)

  piped_below : (j : ℕ) → j < 3 → get_fd (piped k t) j ≡ get_fd t j
  piped_below j p = grind (arith, get_fd-piped j, fd0_far, fd1_far)

  pub std_of-kept : std_of (close fd1 (piped k t)) ≡ std_of t
  std_of-kept =
      Std-ext _ _ (kept_below 0 (omega arith)) (kept_below 1 (omega arith))
        (kept_below 2 (omega arith))

  pub at_fd1 : get_fd (piped k t) fd1 ≡ some (writes k)
  at_fd1 = grind (arith, get_fd-piped fd1)

  -- The output of a command that is not the last.
  out_child :
      (t' : Fds) (i : ℕ)
      → i < 3
      → get_fd t' 0 ≢ none
      → get_fd t' fd1 ≡ some (writes k)
      → get_fd (wire_out fd1 t') i ≡ (if i == 1 then some (writes k) else get_fd t' i)
  out_child t' i p u h = grind (arith, wire_out_lem t' fd1 i (writes k) h fd1_far u, fd1_far)

  module _ (input : ℕ) (e : End) (feeds : get_fd t input ≡ some e) (far : 3 ≤ input) where
    abbrev tin : Fds
    tin = wire_in input fd0 (piped k t)

    in_ne : input ≢ fd1
    in_ne q = fd1_ne input (λ z. ground arith) (sym q)

    in_ne_fd0 : input ≢ fd0
    in_ne_fd0 q = grind (arith, get_fd-lowest t)

    tin_at :
        (j : ℕ)
        → get_fd tin j ≡ (
            if j == input
            then none
            else if j == fd0
            then none
            else if j == 0
            then some e
            else get_fd (piped k t) j)
    tin_at j =
        wire_in_lem (piped k t) input fd0 j e (grind (arith, get_fd-piped input, in_ne, in_ne_fd0))
          far fd0_far

    tin_below : (i : ℕ) → i < 3 → get_fd tin i ≡ (if i == 0 then some e else get_fd t i)
    tin_below i p = grind (arith, tin_at i, fd0_far, piped_below i p)

    tin-fd1 : get_fd tin fd1 ≡ some (writes k)
    tin-fd1 = grind (arith, tin_at fd1, fd1_ne_fd0, in_ne, at_fd1, fd1_far)

  pub std_of-child :
      (first last : Bool) (input : ℕ) (e : Option End)
      → FeedsFrom first input t e
      → std_of (child first last input fd0 fd1 (piped k t)) ≡ record {
        input = e;
        output = if last then get_fd t 1 else some (writes k);
        error = get_fd t 2;
      }
  std_of-child true true input e f =
      Std-ext _ _ (piped_below 0 (omega arith) ∙ f) (piped_below 1 (omega arith))
        (piped_below 2 (omega arith))
  std_of-child true false input e f =
      let t' = piped k t in
      let u : get_fd t' 0 ≢ none = λ z. std.input (sym (piped_below 0 (omega arith)) ∙ z) in
      Std-ext _ _ (out_child t' 0 (omega arith) u at_fd1 ∙ piped_below 0 (omega arith) ∙ f)
        (out_child t' 1 (omega arith) u at_fd1)
        (out_child t' 2 (omega arith) u at_fd1 ∙ piped_below 2 (omega arith))
  std_of-child false last input none f = absurd (f.1 refl)
  std_of-child false true input (some e) f =
      let below = tin_below input e f.0 f.2 in
      Std-ext _ _ (below 0 (omega arith)) (below 1 (omega arith)) (below 2 (omega arith))
  std_of-child false false input (some e) f =
      let below = tin_below input e f.0 f.2 in
      let t' = tin input e f.0 f.2 in
      let u : get_fd t' 0 ≢ none = λ z. ground (arith, below 0 (omega arith)) in
      let open_fd1 = tin-fd1 input e f.0 f.2 in
      Std-ext _ _ (out_child t' 0 (omega arith) u open_fd1 ∙ below 0 (omega arith))
        (out_child t' 1 (omega arith) u open_fd1)
        (out_child t' 2 (omega arith) u open_fd1 ∙ below 2 (omega arith))

  pub feeds_next : FeedsFrom false fd0 (close fd1 (piped k t)) (some (reads k))
  feeds_next = (grind (arith, get_fd-kept fd0, fd1_ne_fd0), (λ z. ground arith), fd0_far)

  pub feeds_open :
      (first : Bool) (input : ℕ) (e : Option End) → FeedsFrom first input t e → e ≢ none
  feeds_open true input e f z = std.input (f ∙ z)
  feeds_open false input e f z = f.1 z

  pub IsStd-child :
      (first last : Bool) (input : ℕ) (e : Option End)
      → FeedsFrom first input t e
      → IsStd (std_of (child first last input fd0 fd1 (piped k t)))
  IsStd-child first last input e f = subst IsStd (sym (std_of-child first last input e f)) (record {
    input = feeds_open first input e f;
    output = if_cases (λ o. o ≢ none) last _ _ (λ _. std.output) (λ _. ground arith);
    error = std.error;
  })
