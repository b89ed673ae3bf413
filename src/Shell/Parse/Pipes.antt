-- ===== src/Shell/Parse/Pipes.antt =====
-- The pipe split of `exec_job` in HW2.3-Shell/myshell.c.
use mathlib.Core.List.{append_assoc, append-nil}
use kernel_programming.Prelude.{
  ℕ, ◌≡◌, ◌≢◌, refl, Bool, true, false, List, [], ◌∷◌, ◌++◌, arith, ◌∙◌, sym, ap,
}
use kernel_programming.Shell.Parse.{split_from, split_pipes, is_blank}

-- A command without '|'.
abbrev pub HasNoPipe : List ℕ → Type 0
HasNoPipe [] = Unit {0}
HasNoPipe (c ∷ s) = (c ≢ b'|') × HasNoPipe s

-- A command behind a pipe, which begins with no blank.
abbrev pub IsSegment : List ℕ → Type 0
IsSegment [] = Unit {0}
IsSegment (c ∷ s) = (is_blank c ≡ false) × HasNoPipe (c ∷ s)

abbrev pub AllSegments : List (List ℕ) → Type 0
AllSegments [] = Unit {0}
AllSegments (s ∷ more) = IsSegment s × AllSegments more

abbrev pub join_pipes : List ℕ → List (List ℕ) → List ℕ
join_pipes s [] = s
join_pipes s (t ∷ more) = s ++ b'|' ∷ join_pipes t more

split_text :
    (seen s u : List ℕ)
    → HasNoPipe s
    → split_from false seen (s ++ u) ≡ split_from false (seen ++ s) u
unfolding split_from
split_text seen [] u h = rw (append-nil seen)
split_text seen (c ∷ s) u h =
    ground (arith, h.0, split_text (seen ++ c ∷ []) s u h.1, append_assoc seen (c ∷ []) s)

segment_start :
    (skipping : Bool) (c : ℕ) (s u : List ℕ)
    → IsSegment (c ∷ s)
    → split_from skipping [] (c ∷ (s ++ u)) ≡ split_from false (c ∷ s) u
unfolding split_from
segment_start true c s u h = ground (arith, split_text (c ∷ []) s u h.1.1)
segment_start false c s u h = ground (arith, split_text (c ∷ []) s u h.1.1)

split_segments :
    (skipping : Bool) (s : List ℕ) (more : List (List ℕ))
    → IsSegment s
    → AllSegments more
    → split_from skipping [] (join_pipes s more) ≡ s ∷ more
unfolding split_from
split_segments skipping [] [] h hs = refl
split_segments skipping [] (t ∷ more) h hs = ap (◌∷◌ []) (split_segments true t more hs.0 hs.1)
split_segments skipping (c ∷ s) [] h hs =
    ap (λ t. split_from skipping [] (c ∷ t)) (sym (append-nil s)) ∙ segment_start skipping c s [] h
split_segments skipping (c ∷ s) (t ∷ more) h hs =
    segment_start skipping c s (b'|' ∷ join_pipes t more) h
    ∙ ap (◌∷◌ (c ∷ s)) (split_segments true t more hs.0 hs.1)

-- Commands joined by '|' come back from the split, if none holds a '|' and those behind a '|' begin
-- with no blank.
pub split_pipes-join :
    (s : List ℕ) (more : List (List ℕ))
    → HasNoPipe s
    → AllSegments more
    → split_pipes (join_pipes s more) ≡ s ∷ more
unfolding split_pipes
split_pipes-join s [] h hs = ap (split_from false []) (sym (append-nil s)) ∙ split_text [] s [] h
split_pipes-join s (t ∷ more) h hs =
    split_text [] s (b'|' ∷ join_pipes t more) h ∙ ap (◌∷◌ s) (split_segments true t more hs.0 hs.1)
