-- ===== src/Block/Clear.antt =====
-- The loops of `deallocate` clear the blocks of the layout.
use native.Mathlib.Decide.{ℕ_discrete}
use vnv_heap.Base.{
  ℕ, zero, suc, ◌+◌, ◌-◌, ◌*◌, ◌/◌, ◌%◌, ◌^◌, ◌≤◌, ◌<◌, ◌≡◌, refl, Bool, true, false, List, arith,
  bit_and, if◌then◌else◌, ◌==◌, All, length, get_or, set, get_elem?-eq-get_or,
}
use vnv_heap.Base.Outcome.{Outcome, ok, ◌>>=◌}
use vnv_heap.Base.Words.{usize_mod, sub_usize}
use vnv_heap.Block.Allocator.{clear_bits, clear_items}
use vnv_heap.Block.Used.{IsItem, Changed, Changed-refl, Changed-trans, clear_block-Changed}
use vnv_heap.Block.Mark.{Changes, changes, Changes-trans}

-- After the inner loop: either all blocks are cleared, or `n` of them and some are left.
data Cleared (before : List ℕ) (p n required : ℕ) : Outcome (List ℕ × ℕ × Bool) → Type 0 where
  all_of :
      {after : List ℕ} {left : ℕ}
      → Changed false before after p required
      → Cleared before p n required (ok (after, left, true))
  part :
      {after : List ℕ} {left : ℕ}
      → Changed false before after p n
      → n + left ≡ required
      → 0 < left
      → Cleared before p n required (ok (after, left, false))

Cleared-step :
    {a b : List ℕ} {p q n m required left : ℕ} {r : Outcome (List ℕ × ℕ × Bool)}
    → Changed false a b p 1
    → Cleared b q n left r
    → p + 1 ≡ q
    → 1 + n ≡ m
    → 1 + left ≡ required
    → Cleared a p m required r
Cleared-step x (all_of y) e e' f = all_of (Changed-trans x y e f)
Cleared-step x (part y g pos) e e' f = part (Changed-trans x y e e') (omega arith) pos

clear_bits-Cleared :
    (index n bit_index required : ℕ) (bit_list : List ℕ)
    → All IsItem bit_list
    → index < length bit_list
    → bit_index + n ≤ 8
    → 0 < required
    → required < usize_mod
    → Cleared bit_list
        (index * 8 + bit_index)
        n
        required
        (clear_bits index n bit_index required bit_list)
unfolding clear_bits
clear_bits-Cleared index zero bit_index required bit_list v h lt pos small =
    part (Changed-refl false bit_list (index * 8 + bit_index) v) (omega arith) pos
clear_bits-Cleared index (suc n) bit_index required bit_list v h lt pos small =
    rw (get_elem?-eq-get_or bit_list index 0 h, sub)
      (elim (ℕ_discrete (required - 1) 0) [
        | yes z ↦
            let t : (required - 1 == 0) ≡ true = ground arith in
            let o : required ≡ 1 = omega arith in rw t (all_of (rw (← o) at one))
        | no more ↦
            let t : (required - 1 == 0) ≡ false = ground arith in
            rw t (
              Cleared-step one
                (clear_bits-Cleared index n (bit_index + 1) (required - 1) _ one.items
                  (rw one.len h) (omega arith) (omega arith) (omega arith))
                (omega arith) (omega arith) (omega arith))
      ])
  where
    sub : sub_usize required 1 ≡ required - 1
    sub = omega arith

    one :
        Changed false bit_list
          (set bit_list index (bit_and (get_or bit_list index 0) (usize_mod - 1 - 2 ^ bit_index)))
          (index * 8 + bit_index)
          1
    one =
        let d : (index * 8 + bit_index) / 8 ≡ index = omega arith in
        let m : (index * 8 + bit_index) % 8 ≡ bit_index = omega arith in
        rw (d, m) at (clear_block-Changed bit_list v (index * 8 + bit_index) (omega arith))

finish :
    {bit_list : List ℕ} {p n required : ℕ} (f : ℕ → List ℕ → Outcome (List ℕ))
    {r : Outcome (List ℕ × ℕ × Bool)}
    → Cleared bit_list p n required r
    → ((left : ℕ) (after : List ℕ)
        → Changed false bit_list after p n
        → n + left ≡ required
        → 0 < left
        → Changes false after (p + n) left (f left after))
    → Changes false bit_list p required
        (r >>= λ (after, left, done). let rest = f left after in if done then ok after else rest)
finish f (all_of x) next = changes x
finish f (part {after} {left} x e more) next = Changes-trans x (next left after x e more) refl e

-- A run of used blocks inside the bit list is cleared, and the fuel is enough.
pub clear_items-Changes :
    (fuel index start required : ℕ) (bit_list : List ℕ)
    → All IsItem bit_list
    → start < 8
    → 0 < required
    → required < usize_mod
    → index * 8 + start + required ≤ length bit_list * 8
    → length bit_list < fuel + index
    → Changes false bit_list
        (index * 8 + start)
        required
        (clear_items fuel index start required bit_list)
unfolding clear_items
clear_items-Changes zero index start required bit_list v hs pos small inside fuel =
    absurd (omega arith)
clear_items-Changes (suc fuel) index start required bit_list v hs pos small inside enough =
    finish (clear_items fuel (index + 1) 0)
      (clear_bits-Cleared index (8 - start) start required bit_list v (omega arith) (omega arith)
        pos small)
      (λ left after x e more.
        let q : (index + 1) * 8 + 0 ≡ index * 8 + start + (8 - start) = omega arith in
        rw q at (
          clear_items-Changes fuel (index + 1) 0 left after x.items (omega arith) more (omega arith)
            (rw x.len (omega arith)) (rw x.len (omega arith))))
