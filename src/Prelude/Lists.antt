-- ===== src/Prelude/Lists.antt =====
-- Lists measured, indexed and counted by native numbers, under the library's names.
use Prim.Native.Nat.{ℕ, zero, suc, ◌+◌, ◌-◌, ◌≤◌, min}
use mathlib.Core.Path.{◌≡◌, refl, ap}
use mathlib.Core.Logic.{◌≢◌}
use mathlib.Core.List.{List, [], ◌∷◌, ◌++◌}
use mathlib.Core.Option.{Option, none, some}
use native.Mathlib.Omega.{arith}
use kernel_programming.Prelude.Tests.{◌==◌, if◌then◌else◌}

module _ {ℓ} {A : Type ℓ} where
  abbrev pub length : List A → ℕ
  length [] = 0
  length (x ∷ xs) = suc (length xs)

  abbrev pub get_elem? : List A → ℕ → Option A
  get_elem? [] i = none
  get_elem? (x ∷ xs) zero = some x
  get_elem? (x ∷ xs) (suc i) = get_elem? xs i

  abbrev pub get_or : List A → ℕ → A → A
  get_or [] i d = d
  get_or (x ∷ xs) zero d = x
  get_or (x ∷ xs) (suc i) d = get_or xs i d

  abbrev pub take : ℕ → List A → List A
  take zero xs = []
  take (suc n) [] = []
  take (suc n) (x ∷ xs) = x ∷ take n xs

  abbrev pub drop : ℕ → List A → List A
  drop zero xs = xs
  drop (suc n) [] = []
  drop (suc n) (x ∷ xs) = drop n xs

  pub length-append : (xs ys : List A) → length (xs ++ ys) ≡ length xs + length ys
  length-append [] ys = omega arith
  length-append (x ∷ xs) ys = omega (arith, length-append xs ys)

  pub length-take : (n : ℕ) (xs : List A) → length (take n xs) ≡ min n (length xs)
  length-take zero xs = omega arith
  length-take (suc n) [] = omega arith
  length-take (suc n) (x ∷ xs) = omega (arith, length-take n xs)

  pub length-drop : (n : ℕ) (xs : List A) → length (drop n xs) ≡ length xs - n
  length-drop zero xs = omega arith
  length-drop (suc n) [] = omega arith
  length-drop (suc n) (x ∷ xs) = omega (arith, length-drop n xs)

  pub take-append-drop : (n : ℕ) (xs : List A) → take n xs ++ drop n xs ≡ xs
  take-append-drop zero xs = refl
  take-append-drop (suc n) [] = refl
  take-append-drop (suc n) (x ∷ xs) = ap (◌∷◌ x) (take-append-drop n xs)

-- How often `p` stands in a list.
abbrev pub count : ℕ → List ℕ → ℕ
count p [] = 0
count p (x ∷ xs) = (if x == p then 1 else 0) + count p xs

-- The list without `p`.
abbrev pub remove : ℕ → List ℕ → List ℕ
remove p [] = []
remove p (x ∷ xs) = let rest = remove p xs in if x == p then rest else x ∷ rest

pub count-append : (p : ℕ) (xs ys : List ℕ) → count p (xs ++ ys) ≡ count p xs + count p ys
count-append p [] ys = omega arith
count-append p (x ∷ xs) ys = ground (arith, count-append p xs ys)

pub count-remove_self : (p : ℕ) (xs : List ℕ) → count p (remove p xs) ≡ 0
count-remove_self p [] = refl
count-remove_self p (x ∷ xs) = ground (arith, count-remove_self p xs)

pub count-remove_ne : (p q : ℕ) (xs : List ℕ) → p ≢ q → count q (remove p xs) ≡ count q xs
count-remove_ne p q [] h = refl
count-remove_ne p q (x ∷ xs) h = ground (arith, count-remove_ne p q xs h)

-- `remove` does nothing to a list without `p`.
pub remove-eq_of_count : (p : ℕ) (xs : List ℕ) → count p xs ≡ 0 → remove p xs ≡ xs
remove-eq_of_count p [] h = refl
remove-eq_of_count p (x ∷ xs) h = ground (arith, remove-eq_of_count p xs)

pub remove-append : (p : ℕ) (xs ys : List ℕ) → remove p (xs ++ ys) ≡ remove p xs ++ remove p ys
remove-append p [] ys = refl
remove-append p (x ∷ xs) ys = ground (arith, remove-append p xs ys)

pub count-remove-le : (p q : ℕ) (xs : List ℕ) → count q (remove p xs) ≤ count q xs
count-remove-le p q [] = omega arith
count-remove-le p q (x ∷ xs) = ground (arith, count-remove-le p q xs)

pub remove-cons_once : (p : ℕ) (xs : List ℕ) → count p (p ∷ xs) ≤ 1 → remove p (p ∷ xs) ≡ xs
remove-cons_once p xs h = ground (arith, remove-eq_of_count p xs)
