-- ===== src/Scull/NoMemory.antt =====
-- `scull_write` of HW4-xmerge/Labs/lab9/lab09-examples/scull.c without memory.
use kernel_programming.Prelude.{
  ◌++◌, [], ◌∷◌, ◌^◌, ℕ, ◌*◌, ◌%◌, ◌<◌, ◌≡◌, refl, sym, ap, arith, ◌∙◌, Bool, not, Option, none,
  some, if_cases, List, if◌then◌else◌, ◌==◌, ◌&&◌, subst,
}
use kernel_programming.Scull.{
  Block, quantum_in, ScullDev, Quantum, Qset, Answers, Ret, Place, enomem, scull_follow, place_of,
  quantum_at, has_itemsize,
}
use kernel_programming.Scull.Write.{
  scull_write, write_at, write_quantum, lacks_array, out_of_memory,
}
use kernel_programming.Scull.Chain.{follow_from-quantum_at}
use kernel_programming.Scull.Refine.{entry_byte, byte_at_lem, File, IsHeld}
use kernel_programming.Scull.Prepared.{given, prepared, prepared-quantum_at}

some_injective : {a b : Ret} → some a ≡ some b → a ≡ b
some_injective {a} e = ap (λ o. elim o [ none ↦ a | some r ↦ r ]) e

module _ (dev : ScullDev) (q_positive : 0 < dev.quantum) (narrow : dev.quantum * dev.qset < 2 ^ 31)
    (file : File) (h : IsHeld file dev) where
  -- A chain with the same quanta.
  same_chain-IsHeld :
      (chain : List Qset)
      → ((j s : ℕ) → quantum_at chain j s ≡ quantum_at dev.chain j s)
      → IsHeld file (record dev { chain = chain })
  same_chain-IsHeld chain same = record {
    same_size = h.same_size;
    held = λ j b r e.
        byte_at_lem (record dev { chain = chain }) q_positive narrow j r
        ∙ ap (λ o. entry_byte o (j % dev.quantum)) (same _ _)
        ∙ sym (byte_at_lem dev q_positive narrow j r)
        ∙ h.held j b r e;
  }

  -- What a call without memory leaves.
  abbrev IsKept : ℕ → Ret → Type 0
  IsKept p r = r.ret ≡ enomem → IsHeld file r.dev × (r.f_pos ≡ p)

  write_quantum-IsKept :
      (answers : Answers) (dev' : ScullDev) (place : Place) (bytes buf : Quantum) (log : List Block)
      (count p : ℕ)
      → IsKept p (write_quantum answers dev' place bytes log count buf p)
  unfolding write_quantum
  write_quantum-IsKept answers dev' place bytes buf log count p =
      if_cases (IsKept p) (not (answers.uncopied == 0)) _ _ (λ e bad. absurd (ground arith))
        (λ e bad. absurd (ground arith))

  allocated-IsKept :
      (o : Option Quantum) (ok : Bool) (p : ℕ) (x : Ret) (write : Quantum → List Block → Ret)
      (fresh : Quantum) (log : List Block) (b : Block)
      → IsKept p x
      → ((bytes : Quantum) (l : List Block) → IsKept p (write bytes l))
      → IsKept p (elim o as (λ o'. Ret) [
        | none ↦ if not ok then x else write fresh (log ++ b ∷ [])
        | some bytes ↦ write bytes log
      ])
  allocated-IsKept none ok p x write fresh log b kx kw =
      if_cases (IsKept p) (not ok) x (write fresh (log ++ b ∷ [])) (λ e. kx) (λ e. kw fresh _)
  allocated-IsKept (some bytes) ok p x write fresh log b kx kw = kw bytes log

  write_at-IsKept :
      (answers : Answers) (count : ℕ) (buf : Quantum) (p : ℕ)
      → IsKept p (write_at answers dev count buf p)
  unfolding write_at
  write_at-IsKept answers count buf p =
      let place = place_of dev p in
      let chain = (scull_follow answers dev.chain place.item).0.1 in
      let dev' = record dev { chain = prepared answers dev.chain place.item } in
      let log = given answers dev.chain place.item in
      let followed =
        same_chain-IsHeld chain (follow_from-quantum_at answers.node 0 place.item dev.chain) in
      if_cases (IsKept p) (not (scull_follow answers dev.chain place.item).0.0) _ _
        (λ e bad. (followed, refl))
        (λ e.
          if_cases (IsKept p) (lacks_array chain place.item && not answers.array) _ _
            (λ e' bad. (followed, refl))
            (λ e'.
              allocated-IsKept (quantum_at dev'.chain place.item place.s_pos) answers.quantum_ok p
                (out_of_memory dev' log p)
                (λ bytes l. write_quantum answers dev' place bytes l count buf p) answers.fresh log
                (quantum_in place.item place.s_pos)
                (λ bad. (
                  same_chain-IsHeld dev'.chain (prepared-quantum_at answers dev.chain place.item),
                  refl,
                ))
                (λ bytes l. write_quantum-IsKept answers dev' place bytes buf l count p)))

  -- Suppose the device, with quanta that are not empty and whose product with the sets an int
  -- holds, holds a file. When a write returns -ENOMEM, whichever allocation has failed and whatever
  -- the others have added to the chain, the device still holds the file, and the position has not
  -- moved.
  pub scull_write-enomem :
      (answers : Answers) (count : ℕ) (buf : Quantum) (p : ℕ) (r : Ret)
      → scull_write answers dev count buf p ≡ some r
      → r.ret ≡ enomem
      → IsHeld file r.dev × (r.f_pos ≡ p)
  unfolding scull_write
  scull_write-enomem answers count buf p r done e =
      if_cases (λ o. o ≡ some r → IsHeld file r.dev × (r.f_pos ≡ p)) (not (has_itemsize dev)) none
        (some (write_at answers dev count buf p)) (λ zero none_is. absurd (ground arith))
        (λ fine same.
          subst (IsKept p) (some_injective same) (write_at-IsKept answers count buf p) e)
        done
