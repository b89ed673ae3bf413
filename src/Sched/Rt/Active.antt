-- ===== src/Sched/Rt/Active.antt =====
-- The priority array of `struct rt_rq` (kernel/sched/rt.c): what holds of its lists, its bitmap and
-- its counts, and that an entry may be put on it and taken off.
use kernel_programming.Prelude.{
  ℕ, zero, suc, ◌+◌, ◌≤◌, ◌<◌, ◌≡◌, ◌≢◌, refl, arith, Bool, true, false, not, List, [], ◌∷◌, count,
  remove, length, Bool-cases, inl, inr, ℕ_discrete, if◌then◌else◌, ltb, length-append, ◌==◌, ◌^◌,
  count-append,
}
use kernel_programming.Prelude.Int.{ℤ, pos}
use kernel_programming.Sched.{RtRq, update}
use kernel_programming.Sched.Rt.{is_empty, enlist, inc_rt_tasks, enlist_list}

-- The documented behaviour of `sched_find_first_bit`, when some bit of the map is set.
abbrev pub FindsFirst : ((ℕ → Bool) → ℕ) → Type 0
FindsFirst find =
    (bits : ℕ → Bool) (i : ℕ)
    → i ≤ 100
    → bits i ≡ true
    → (bits (find bits) ≡ true) × (find bits ≤ i)

-- The number of entries of the lists below `n`.
unfoldable pub total : ℕ → (ℕ → List ℕ) → ℕ
total zero queue = 0
total (suc n) queue = length (queue n) + total n queue

pub total-congr :
    (n : ℕ) (q q' : ℕ → List ℕ)
    → ((j : ℕ) → j < n → length (q' j) ≡ length (q j))
    → total n q' ≡ total n q
unfolding total
total-congr zero q q' h = refl
total-congr (suc n) q q' h =
    omega (arith, h n (omega arith), total-congr n q q' (λ j lt. h j (omega arith)))

pub total-nil : (n : ℕ) → total n (λ j. []) ≡ 0
unfolding total
total-nil zero = refl
total-nil (suc n) = omega (arith, total-nil n)

pub total-change :
    (n i : ℕ) (q q' : ℕ → List ℕ)
    → i < n
    → ((j : ℕ) → j < n → i ≢ j → length (q' j) ≡ length (q j))
    → total n q' + length (q i) ≡ total n q + length (q' i)
unfolding total
total-change zero i q q' lt h = absurd (omega arith)
total-change (suc n) i q q' lt h = elim (ℕ_discrete i n) [
  | yes e ↦ rw e (omega (arith, total-congr n q q' (λ j l. h j (omega arith) (omega arith))))
  | no ne ↦
      omega (
        arith,
        h n (omega arith) ne,
        total-change n i q q' (omega arith) (λ j l. h j (omega arith)),
      )
]

pub total-zero : (n j : ℕ) (q : ℕ → List ℕ) → total n q ≡ 0 → j < n → length (q j) ≡ 0
unfolding total
total-zero zero j q e lt = absurd (omega arith)
total-zero (suc n) j q e lt = elim (ℕ_discrete j n) [
  | yes same ↦ rw same (omega arith)
  | no ne ↦ total-zero n j q (omega arith) (omega arith)
]

pub length-remove : (p : ℕ) (xs : List ℕ) → length (remove p xs) + count p xs ≡ length xs
length-remove p [] = refl
length-remove p (x ∷ xs) = ground (arith, length-remove p xs)

pub total-positive : (n i p : ℕ) (q : ℕ → List ℕ) → i < n → 0 < count p (q i) → 0 < total n q
total-positive n i p q lt c = elim (ℕ_discrete (total n q) 0) [
  | yes e ↦ absurd (omega (arith, total-zero n i q e lt, length-remove p (q i)))
  | no ne ↦ omega arith
]

is_empty-length_zero : (l : List ℕ) → is_empty l ≡ true → length l ≡ 0
is_empty-length_zero [] e = refl
is_empty-length_zero (x ∷ l) e = absurd (ground arith)

pub total-listed :
    (n : ℕ) (queue : ℕ → List ℕ)
    → 0 < total n queue
    → (j : ℕ) × (j < n) × (is_empty (queue j) ≡ false)
unfolding total
total-listed zero queue c = absurd (omega arith)
total-listed (suc n) queue c = elim (Bool-cases (is_empty (queue n))) [
  | inl gone ↦
      let (j, lt, full) =
        total-listed n queue (omega (arith, is_empty-length_zero (queue n) gone)) in
      (j, omega (arith, lt), full)
  | inr full ↦ (n, omega arith, full)
]

pub is_empty-cons : (l : List ℕ) → is_empty l ≡ false → (p : ℕ) × (rest : List ℕ) × (l ≡ p ∷ rest)
is_empty-cons [] e = absurd (ground arith)
is_empty-cons (p ∷ rest) e = (p, rest, refl)

length_at : (q : ℕ → List ℕ) (i : ℕ) → length (update q i [] i) ≡ 0
length_at q i = ground arith

pub total_of_length : (n j : ℕ) (q : ℕ → List ℕ) → j < n → 0 < length (q j) → 0 < total n q
total_of_length n j q lt c = elim (ℕ_discrete (total n q) 0) [
  | yes e ↦ absurd (omega (arith, total-zero n j q e lt))
  | no ne ↦ omega arith
]

-- Where two lists have entries, the total is two at least.
pub total-two :
    (n i j : ℕ) (q : ℕ → List ℕ)
    → i < n
    → j < n
    → i ≢ j
    → 0 < length (q i)
    → 0 < length (q j)
    → 1 < total n q
total-two n i j q li lj ne ci cj =
    let q' = update q i [] in
    omega (
      arith,
      ci,
      total-change n i q q' li (λ k l other. ground arith),
      total_of_length n j q' lj (ground arith),
      length_at q i,
    )

-- Each entry stands once, on the list of its priority; a bit is set where a list has an entry; the
-- delimiter is set; the highest priority is the first bit; the count is that of the entries.
pub record IsActive (find : (ℕ → Bool) → ℕ) (rt : RtRq) (prio : ℕ → ℤ) : Type 0 where
  pub placed : (i p : ℕ) → i < 100 → 0 < count p (rt.queue i) → prio p ≡ pos i
  pub once : (i p : ℕ) → i < 100 → count p (rt.queue i) ≤ 1
  pub bits : (i : ℕ) → i < 100 → rt.bitmap i ≡ not (is_empty (rt.queue i))
  pub delimiter : rt.bitmap 100 ≡ true
  pub highest : rt.highest_prio ≡ find rt.bitmap
  pub running : rt.rt_nr_running ≡ total 100 rt.queue

abbrev pub IsUnlisted : ℕ → RtRq → Type 0
IsUnlisted p rt = (i : ℕ) → i < 100 → count p (rt.queue i) ≡ 0

module _ (find : (ℕ → Bool) → ℕ) (first : FindsFirst find) where
  pub find_lem :
      (b : ℕ → Bool) (k : ℕ) → k ≤ 100 → b k ≡ true → ((j : ℕ) → j < k → b j ≡ false) → find b ≡ k
  find_lem b k le e below = ground (arith, first b k, below (find b))

  pub find-below : (b : ℕ → Bool) (j : ℕ) → b 100 ≡ true → j < find b → b j ≡ false
  find-below b j e lt = elim (Bool-cases (b j)) [
    | inl set ↦ absurd (ground (arith, first b j, first b 100))
    | inr clear ↦ clear
  ]

  pub find-set :
      (b : ℕ → Bool) (i : ℕ)
      → b 100 ≡ true
      → find (update b i true) ≡ (if ltb i (find b) then i else find b)
  find-set b i e =
      find_lem (update b i true) _ (ground (arith, first b 100)) (ground (arith, first b 100))
        (λ j lt. ground (arith, find-below b j e))

  pub find-clear :
      (b : ℕ → Bool) (i : ℕ) → b 100 ≡ true → i ≢ find b → find (update b i false) ≡ find b
  find-clear b i e ne =
      find_lem (update b i false) (find b) (ground (arith, first b 100))
        (ground (arith, first b 100)) (λ j lt. ground (arith, find-below b j e))

count-enlist :
    (head : Bool) (p q : ℕ) (l : List ℕ)
    → count q (enlist_list head p l) ≡ count q l + (if p == q then 1 else 0)
unfolding enlist_list
count-enlist true p q l = ground arith
count-enlist false p q l = ground (arith, count-append q l (p ∷ []))

length-enlist : (head : Bool) (p : ℕ) (l : List ℕ) → length (enlist_list head p l) ≡ suc (length l)
unfolding enlist_list
length-enlist true p l = refl
length-enlist false p l = omega (arith, length-append l (p ∷ []))

enlist_list-full : (head : Bool) (p : ℕ) (l : List ℕ) → is_empty (enlist_list head p l) ≡ false
unfolding enlist_list
enlist_list-full true p l = refl
enlist_list-full false p [] = refl
enlist_list-full false p (x ∷ l) = refl

module _ (find : (ℕ → Bool) → ℕ) (first : FindsFirst find) (prio : ℕ → ℤ) (p i : ℕ) (rt : RtRq)
    (v : IsActive find rt prio) (e : prio p ≡ pos i) (lt : i < 100) where
  module _ (u : IsUnlisted p rt) (head : Bool) where
    abbrev longer : ℕ → List ℕ
    longer = update rt.queue i (enlist_list head p (rt.queue i))

    longer-placed : (j q : ℕ) → j < 100 → 0 < count q (longer j) → prio q ≡ pos j
    longer-placed j q l c = ground (arith, v.placed j q l, count-enlist head p q (rt.queue i))

    longer-once : (j q : ℕ) → j < 100 → count q (longer j) ≤ 1
    longer-once j q l = ground (arith, v.once j q l, u j l, count-enlist head p q (rt.queue i))

    longer-bits : (j : ℕ) → j < 100 → update rt.bitmap i true j ≡ not (is_empty (longer j))
    longer-bits j l = ground (arith, v.bits j l, enlist_list-full head p (rt.queue i))

    longer-length : length (longer i) ≡ suc (length (rt.queue i))
    longer-length = ground (arith, length-enlist head p (rt.queue i))

    longer-total : total 100 longer ≡ suc (total 100 rt.queue)
    longer-total =
        omega (arith, total-change 100 i rt.queue longer lt (λ j l ne. ground arith), longer-length)

    -- An entry that is not listed may be put at either end of the list of its priority.
    pub enlist-IsActive :
        (rr : Bool)
        → total 100 rt.queue + 1 < 2 ^ 32
        → IsActive find (inc_rt_tasks rr i (enlist head p i rt)) prio
    unfolding enlist inc_rt_tasks
    enlist-IsActive rr few = record {
      placed = longer-placed;
      once = longer-once;
      bits = longer-bits;
      delimiter = ground (arith, v.delimiter);
      highest = rw (v.highest, find-set find first rt.bitmap i v.delimiter);
      running = omega (arith, v.running, longer-total);
    }
