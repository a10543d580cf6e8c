-- ===== src/Block/Mark.antt =====
-- Marking the blocks that the search delimits.
use vnv_heap.Base.{
  ℕ, zero, suc, ◌+◌, ◌-◌, ◌*◌, ◌/◌, ◌%◌, ◌^◌, ◌≤◌, ◌<◌, ◌≡◌, refl, Bool, true, false, List, arith,
  bit_or, if◌then◌else◌, ◌==◌, All, length, get_or, set, get_elem?-eq-get_or,
}
use vnv_heap.Base.Outcome.{Outcome, ok, ◌>>=◌}
use vnv_heap.Block.Allocator.{Search, mark_bits, mark_items}
use vnv_heap.Block.Used.{IsItem, Changed, Changed-refl, Changed-trans, set_block-Changed}

-- A run that ends with a bit list in which the blocks from `p` on have changed.
pub data Changes (to : Bool) (before : List ℕ) (p n : ℕ) : Outcome (List ℕ) → Type 0 where
  changes : {after : List ℕ} → Changed to before after p n → Changes to before p n (ok after)

pub Changes-trans :
    {to : Bool} {a b : List ℕ} {p q n m k : ℕ} {r : Outcome (List ℕ)}
    → Changed to a b p n
    → Changes to b q m r
    → p + n ≡ q
    → n + m ≡ k
    → Changes to a p k r
Changes-trans x (changes y) e e' = changes (Changed-trans x y e e')

pub Changes-bind :
    {to : Bool} {a : List ℕ} {p q n m k : ℕ} {r : Outcome (List ℕ)} {f : List ℕ → Outcome (List ℕ)}
    → Changes to a p n r
    → ((b : List ℕ) → Changed to a b p n → Changes to b q m (f b))
    → p + n ≡ q
    → n + m ≡ k
    → Changes to a p k (r >>= f)
Changes-bind (changes {after} x) next e e' = Changes-trans x (next after x) e e'

mark_bits-Changes :
    (list_index n i : ℕ) (bit_list : List ℕ)
    → All IsItem bit_list
    → list_index < length bit_list
    → i + n ≤ 8
    → Changes true bit_list (list_index * 8 + i) n (mark_bits list_index n i bit_list)
unfolding mark_bits
mark_bits-Changes list_index zero i bit_list v h lt =
    changes (Changed-refl true bit_list (list_index * 8 + i) v)
mark_bits-Changes list_index (suc n) i bit_list v h lt =
    rw (get_elem?-eq-get_or bit_list list_index 0 h) (
      Changes-trans one
        (mark_bits-Changes list_index n (i + 1) _ one.items (rw one.len h) (omega arith))
        (omega arith) (omega arith))
  where
    one :
        Changed true bit_list
          (set bit_list list_index (bit_or (get_or bit_list list_index 0) (2 ^ i)))
          (list_index * 8 + i)
          1
    one =
        let d : (list_index * 8 + i) / 8 ≡ list_index = omega arith in
        let m : (list_index * 8 + i) % 8 ≡ i = omega arith in
        rw (d, m) at (set_block-Changed bit_list v (list_index * 8 + i) (omega arith))

-- From word `list_index` to the last one of the run, `n` words further on.
pub mark_items-Changes :
    (s : Search) (n list_index p k : ℕ) (bit_list : List ℕ)
    → s.bit_index_end < 8
    → p < list_index * 8 + 8
    → p ≡ list_index * 8 + (if list_index == s.list_index_start then s.bit_index_start else 0)
    → s.list_index_start ≤ list_index
    → list_index + n ≡ s.list_index_end
    → p + k ≡ s.list_index_end * 8 + s.bit_index_end + 1
    → 0 < k
    → All IsItem bit_list
    → s.list_index_end < length bit_list
    → Changes true bit_list p k (mark_items s (suc n) list_index bit_list)
unfolding mark_items
mark_items-Changes s zero list_index p k bit_list hb hp ep lo e ek pos v inside =
    let here : (list_index == s.list_index_end) ≡ true = ground arith in
    rw here (
      Changes-bind
        (rw (← ep) at (
          mark_bits-Changes list_index
            (s.bit_index_end
              + 1
              - (if list_index == s.list_index_start then s.bit_index_start else 0))
            (if list_index == s.list_index_start then s.bit_index_start else 0) bit_list v
            (omega arith) (omega arith)))
        (λ b x. changes (Changed-refl true b _ x.items)) refl (omega arith))
mark_items-Changes s (suc n) list_index p k bit_list hb hp ep lo e ek pos v inside =
    let here : (list_index == s.list_index_end) ≡ false = ground arith in
    rw here (
      Changes-bind
        (rw (← ep) at (
          mark_bits-Changes list_index
            (7 + 1 - (if list_index == s.list_index_start then s.bit_index_start else 0))
            (if list_index == s.list_index_start then s.bit_index_start else 0) bit_list v
            (omega arith) (omega arith)))
        (λ b x.
          mark_items-Changes s n (list_index + 1) ((list_index + 1) * 8)
            (s.list_index_end * 8 + s.bit_index_end + 1 - (list_index + 1) * 8) b hb (omega arith)
            (ground arith) (omega arith) (omega arith) (omega arith) (omega arith) x.items
            (rw x.len inside))
        (omega arith) (omega arith))
