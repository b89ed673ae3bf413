-- ===== src/Scull/Loaded.antt =====
-- `scull_read` of HW4-xmerge/Labs/lab9/lab09-examples/scull.c reads the file.
use native.Mathlib.Nat.{add-zero, mod-lt}
use mathlib.Core.Path.{ap₂}
use kernel_programming.Prelude.{
  ◌*◌, ℕ, zero, suc, ◌+◌, ◌-◌, ◌/◌, ◌%◌, ◌^◌, ◌<◌, ◌≤◌, ◌≡◌, refl, sym, ap, arith, ◌∙◌, false, ◌∷◌,
  Option, none, some, min, ltb, leb, if◌then◌else◌,
}
use kernel_programming.Prelude.Int.{pos}
use kernel_programming.Scull.{
  ScullDev, Quantum, Answers, Ret, scull_follow, place_of, quantum_at, bytes_from, read_at,
  scull_read,
}
use kernel_programming.Scull.Chain.{follow_from-quantum_at, follow_from-found}
use kernel_programming.Scull.Offset.{InRange, place_of_lem, near_lem, has_itemsize_lem}
use kernel_programming.Scull.Refine.{entry_byte, byte_at, byte_at_lem, File, IsHeld}
use kernel_programming.Scull.Prepared.{IsGood}

bytes_from-congr :
    (n : ℕ) (a b : Quantum) (i j : ℕ)
    → ((k : ℕ) → k < n → a (i + k) ≡ b (j + k))
    → bytes_from a i n ≡ bytes_from b j n
bytes_from-congr zero a b i j same = refl
bytes_from-congr (suc n) a b i j same =
    ap₂ ◌∷◌ (ap a (sym (add-zero i)) ∙ same 0 (omega arith) ∙ ap b (add-zero j)) (
      bytes_from-congr n a b (i + 1) (j + 1)
        (λ k lt. ap a (omega arith) ∙ same (k + 1) (omega arith) ∙ ap b (omega arith)))

entry_byte-some :
    (o : Option Quantum) (k b : ℕ) → entry_byte o k ≡ some b → (bytes : Quantum) × (o ≡ some bytes)
entry_byte-some none k b e = absurd (ground arith)
entry_byte-some (some bytes) k b e = (bytes, refl)

some_injective : {a b : ℕ} → some a ≡ some b → a ≡ b
some_injective e = ground arith

read_at_lem :
    (answers : Answers) (dev : ScullDev) (count p : ℕ) (bytes : Quantum)
    → IsGood answers
    → let place = place_of dev p in
      let chain = (scull_follow answers dev.chain place.item).0.1 in
      let n = min count (dev.quantum - place.q_pos) in
      quantum_at chain place.item place.s_pos ≡ some bytes
      → read_at answers dev count p ≡ record {
        ret = pos n;
        dev = record dev { chain = chain };
        f_pos = p + n;
        out = bytes_from bytes place.q_pos n;
        kmallocs = (scull_follow answers dev.chain place.item).1;
      }
unfolding read_at
read_at_lem answers dev count p bytes good e =
    let place = place_of dev p in
    let found = (follow_from-found answers.node 0 place.item dev.chain good.nodes).0 in
    rw (read_at, e, found, good.copied) refl

-- How many bytes a read hands out: no more than the file holds and the rest of the quantum.
abbrev pub loaded : ScullDev → ℕ → ℕ → ℕ
loaded dev count p = min (min count (dev.size - p)) (dev.quantum - p % dev.quantum)

module _ (dev : ScullDev) (count p : ℕ) (q_positive : 0 < dev.quantum)
    (narrow : dev.quantum * dev.qset < 2 ^ 31) (range : InRange dev p) where
  cut_lem :
      (answers : Answers)
      → 0 < dev.qset
      → p < dev.size
      → p + count < 2 ^ 64
      → scull_read answers dev count p ≡ some (read_at answers dev (min count (dev.size - p)) p)
  unfolding scull_read
  cut_lem answers s_positive inside small =
      let cut : (if ltb dev.size ((p + count) % 2 ^ 64) then dev.size - p else count)
          ≡ min count (dev.size - p) =
        ground arith in
      let on : leb dev.size p ≡ false = ground arith in
      rw (on, has_itemsize_lem dev q_positive s_positive narrow, cut) refl

  -- The quantum of a byte that the device holds, and its bytes.
  pub quantum_there :
      (b : ℕ)
      → byte_at dev p ≡ some b
      → (bytes : Quantum) × (quantum_at dev.chain
            (p / dev.quantum / dev.qset)
            (p / dev.quantum % dev.qset)
          ≡ some bytes)
  quantum_there b e =
      entry_byte-some _ (p % dev.quantum) b (sym (byte_at_lem dev q_positive narrow p range) ∙ e)

  near_byte :
      (bytes : Quantum) (n k b : ℕ)
      → quantum_at dev.chain (p / dev.quantum / dev.qset) (p / dev.quantum % dev.qset) ≡ some bytes
      → n ≤ dev.quantum - p % dev.quantum
      → k < n
      → byte_at dev (p + k) ≡ some b
      → bytes (p % dev.quantum + k) ≡ b
  near_byte bytes n k b there fits lt e =
      let (same, moved) =
        near_lem p dev.quantum dev.qset q_positive (p + k) n (omega arith) (omega (arith, lt))
          fits in
      let j = p + k in
      let range' : InRange dev j = rw same range in
      let there' : quantum_at dev.chain (j / dev.quantum / dev.qset) (j / dev.quantum % dev.qset)
          ≡ some bytes =
        rw same there in
      let shown : some (bytes (j % dev.quantum)) ≡ some b =
        ap (λ o. entry_byte o (j % dev.quantum)) (sym there')
        ∙ sym (byte_at_lem dev q_positive narrow j range')
        ∙ e in
      ap bytes (omega (arith, moved)) ∙ some_injective shown

  followed-IsHeld :
      (answers : Answers) (file : File) (item : ℕ)
      → IsHeld file dev
      → IsHeld file (record dev { chain = (scull_follow answers dev.chain item).0.1 })
  followed-IsHeld answers file item h = record {
    same_size = h.same_size;
    held = λ j b r e.
        byte_at_lem (record dev { chain = (scull_follow answers dev.chain item).0.1 }) q_positive
          narrow j r
        ∙ ap (λ o. entry_byte o (j % dev.quantum))
            (follow_from-quantum_at answers.node 0 item dev.chain (j / dev.quantum / dev.qset)
              (j / dev.quantum % dev.qset))
        ∙ sym (byte_at_lem dev q_positive narrow j r)
        ∙ h.held j b r e;
  }

  near_range : (n k : ℕ) → n ≤ dev.quantum - p % dev.quantum → k < n → InRange dev (p + k)
  near_range n k fits lt =
      rw
        (near_lem p dev.quantum dev.qset q_positive (p + k) n (omega arith) (omega (arith, lt))
          fits).0
        range

  shown_lem :
      (answers : Answers) (c : ℕ) (bytes : Quantum)
      → IsGood answers
      → quantum_at dev.chain (p / dev.quantum / dev.qset) (p / dev.quantum % dev.qset) ≡ some bytes
      → read_at answers dev c p ≡ record {
        ret = pos (min c (dev.quantum - p % dev.quantum));
        dev = record dev { chain = (scull_follow answers dev.chain (place_of dev p).item).0.1 };
        f_pos = p + min c (dev.quantum - p % dev.quantum);
        out = bytes_from bytes (p % dev.quantum) (min c (dev.quantum - p % dev.quantum));
        kmallocs = (scull_follow answers dev.chain (place_of dev p).item).1;
      }
  shown_lem answers c bytes good there =
      let place = place_of dev p in
      let chain = (scull_follow answers dev.chain place.item).0.1 in
      let same = place_of_lem dev p q_positive narrow range in
      let shown : ℕ → Ret = λ q_pos. record {
        ret = pos (min c (dev.quantum - q_pos));
        dev = record dev { chain = chain };
        f_pos = p + min c (dev.quantum - q_pos);
        out = bytes_from bytes q_pos (min c (dev.quantum - q_pos));
        kmallocs = (scull_follow answers dev.chain place.item).1;
      } in
      read_at_lem answers dev c p bytes good (
        follow_from-quantum_at answers.node 0 place.item dev.chain place.item place.s_pos
        ∙ ap (λ x. quantum_at dev.chain x.item x.s_pos) same
        ∙ there)
      ∙ ap (λ x. shown x.q_pos) same

  -- Suppose the device, with quanta and sets that are not empty and whose product an int holds,
  -- holds a file, the position lies in the file, the index of its node is in the range of an int,
  -- the end of the bytes asked for is below 2^64, and the kernel has memory and copies everything.
  -- When the bytes that are asked for, up to the end of the file and of the quantum, have been
  -- written, a read hands out exactly these, returns their count and moves the position by it, and
  -- the device still holds the file.
  pub scull_read-IsHeld :
      (answers : Answers) (file : File) (bytes : Quantum)
      → 0 < dev.qset
      → IsGood answers
      → IsHeld file dev
      → p < dev.size
      → p + count < 2 ^ 64
      → 0 < count
      → ((k : ℕ) → k < loaded dev count p → file.byte (p + k) ≡ some (bytes k))
      → (r : Ret) × (scull_read answers dev count p ≡ some r)
        × (r.ret ≡ pos (loaded dev count p))
        × (r.f_pos ≡ p + loaded dev count p)
        × (r.out ≡ bytes_from bytes 0 (loaded dev count p))
        × IsHeld file r.dev
  scull_read-IsHeld answers file bytes s_positive good h inside small some_count written =
      let n = loaded dev count p in
      let fits : n ≤ dev.quantum - p % dev.quantum = omega arith in
      let held =
        λ (k : ℕ) (lt : k < n). h.held (p + k) (bytes k) (near_range n k fits lt) (written k lt) in
      let full : 0 < n = omega (arith, mod-lt p q_positive) in
      let (q, there) =
        quantum_there (bytes 0) (ap (byte_at dev) (sym (add-zero p)) ∙ held 0 full) in
      (
        _,
        cut_lem answers s_positive inside small ∙ ap some (shown_lem answers _ q good there),
        refl,
        refl,
        bytes_from-congr n q bytes (p % dev.quantum) 0
            (λ k lt. near_byte q n k (bytes k) there fits lt (held k lt) ∙ ap bytes (omega arith)),
        followed-IsHeld answers file (place_of dev p).item h,
      )
