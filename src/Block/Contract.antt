-- ===== src/Block/Contract.antt =====
-- The contract of the block allocator over several calls.
use vnv_heap.Base.{
  ℕ, ◌+◌, ◌*◌, ◌≤◌, ◌<◌, ◌≡◌, refl, sym, ◌∙◌, ap, subst₂, true, false, ◌⊎◌, inl, inr, arith, max,
}
use native.Mathlib.Decide.{dec_le}
use vnv_heap.Base.Outcome.{Outcome, ok, err, panic, out_of_fuel}
use vnv_heap.Base.Words.{usize_mod}
use vnv_heap.Util.{div_ceil_bounds}
use vnv_heap.Block.Allocator.{NonResidentBlockAllocator, allocate, deallocate}
use vnv_heap.Block.Used.{AllFree, Changed}
use vnv_heap.Block.Rounds.{block_count, IsValid}
use vnv_heap.Block.Freed.{Freed, freed, deallocate-Freed, Changed-IsValid}
use vnv_heap.Block.Correct.{
  used_in, blocks_of, Allocated, placed, no_space, allocate-Allocated, blocks_of_pos, mul_mono,
  div_mul-le,
}

-- What a successful `allocate` tells.
pub record Placed (block_size size : ℕ) (a : NonResidentBlockAllocator) (o : ℕ)
    (a' : NonResidentBlockAllocator) : Type 0 where
  pub k : ℕ
  pub at_block : o ≡ a.offset + k * block_size
  pub inside : k + blocks_of block_size size ≤ block_count block_size a
  pub free : AllFree (used_in a) k (blocks_of block_size size)
  pub marked : Changed true a.bit_list a'.bit_list k (blocks_of block_size size)
  pub offset : a'.offset ≡ a.offset
  pub same_size : a'.size ≡ a.size

get_ok {ℓ} : {A : Type ℓ} → A → Outcome A → A
get_ok d (ok x) = x
get_ok d err = d
get_ok d panic = d
get_ok d out_of_fuel = d

ok-injective {ℓ} : {A : Type ℓ} {x y : A} → ok x ≡ ok y → x ≡ y
unfolding get_ok
ok-injective {x} e = ap (get_ok x) e

Allocated-Placed :
    {block_size size : ℕ} {a : NonResidentBlockAllocator} (o : ℕ) (a' : NonResidentBlockAllocator)
    {r : Outcome (ℕ × NonResidentBlockAllocator)}
    → Allocated block_size size a r
    → r ≡ ok (o, a')
    → Placed block_size size a o a'
Allocated-Placed {block_size} {size} {a} o a' (placed k {a' = b} inside free first x eo es) e =
    subst₂ (Placed block_size size a) (ap (λ t. t.0) q) (ap (λ t. t.1) q) (record {
      k = k;
      at_block = refl;
      inside = inside;
      free = free;
      marked = x;
      offset = eo;
      same_size = es;
    })
  where
    q : ◌≡◌ {A = ℕ × NonResidentBlockAllocator} (a.offset + k * block_size, b) (o, a')
    q = ok-injective e
Allocated-Placed o a' (no_space h) e = cc

module _ (block_size : ℕ) (a : NonResidentBlockAllocator) (v : IsValid block_size a)
    (region : a.offset + a.size < usize_mod) where
  allocate-Placed :
      (size o : ℕ) (a' : NonResidentBlockAllocator)
      → 0 < size
      → size + block_size < usize_mod
      → allocate block_size size a ≡ ok (o, a')
      → Placed block_size size a o a'
  allocate-Placed size o a' pos fits e =
      Allocated-Placed o a' (allocate-Allocated block_size size a v pos fits region) e

  -- On a valid allocator whose region ends within `usize`, for layouts of at least one byte whose
  -- size plus one block does not overflow: a successful `allocate` keeps the allocator valid, and
  -- a `deallocate` of what it returned succeeds and gives back the set of used blocks that was
  -- there before.
  pub deallocate-allocate :
      (size o : ℕ) (a' : NonResidentBlockAllocator)
      → 0 < size
      → size + block_size < usize_mod
      → allocate block_size size a ≡ ok (o, a')
      → IsValid block_size a'
        × ((a'' : NonResidentBlockAllocator) × (deallocate block_size o size a' ≡ ok a'')
            × IsValid block_size a''
            × ((j : ℕ) → used_in a'' j ≡ used_in a j))
  deallocate-allocate size o a' pos fits e = (valid', back _ undo refl)
    where
      p : Placed block_size size a o a'
      p = allocate-Placed size o a' pos fits e

      valid' : IsValid block_size a'
      valid' = Changed-IsValid v p.marked p.same_size

      undo : Freed a' p.k (blocks_of block_size size) (deallocate block_size o size a')
      undo =
          let at_block : o ≡ a'.offset + p.k * block_size = rw p.offset p.at_block in
          rw at_block (
            deallocate-Freed block_size size p.k a' valid' pos fits
              (rw (p.offset, p.same_size) region) (rw p.same_size p.inside))

      restored :
          (a'' : NonResidentBlockAllocator) (j : ℕ)
          → Changed false a'.bit_list a''.bit_list p.k (blocks_of block_size size)
          → used_in a'' j ≡ used_in a j
      restored a'' j x = ground (arith, x.blocks j, p.marked.blocks j, p.free j)

      back :
          (r : Outcome NonResidentBlockAllocator)
          → Freed a' p.k (blocks_of block_size size) r
          → r ≡ deallocate block_size o size a'
          → (a'' : NonResidentBlockAllocator) × (deallocate block_size o size a' ≡ ok a'')
            × IsValid block_size a''
            × ((j : ℕ) → used_in a'' j ≡ used_in a j)
      back _ (freed {a' = a''} x eo es) q =
          (a'', sym q, Changed-IsValid valid' x es, λ j. restored a'' j x)

  -- On a valid allocator whose region ends within `usize`, for layouts of at least one byte whose
  -- size plus one block does not overflow: two allocations that are both live do not overlap: a
  -- second `allocate` returns a region apart from the first, and both lie in the managed area.
  pub allocate-allocate_apart :
      (size₁ size₂ o₁ o₂ : ℕ) (a₁ a₂ : NonResidentBlockAllocator)
      → 0 < size₁
      → size₁ + block_size < usize_mod
      → 0 < size₂
      → size₂ + block_size < usize_mod
      → allocate block_size size₁ a ≡ ok (o₁, a₁)
      → allocate block_size size₂ a₁ ≡ ok (o₂, a₂)
      → ((o₁ + size₁ ≤ o₂) ⊎ (o₂ + size₂ ≤ o₁))
        × (a.offset ≤ o₁)
        × (o₁ + size₁ ≤ a.offset + a.size)
        × (a.offset ≤ o₂)
        × (o₂ + size₂ ≤ a.offset + a.size)
  allocate-allocate_apart size₁ size₂ o₁ o₂ a₁ a₂ pos₁ fits₁ pos₂ fits₂ e₁ e₂ =
      (apart, omega (arith, p.at_block), in₁, omega (arith, q.at_block, p.offset), in₂)
    where
      p : Placed block_size size₁ a o₁ a₁
      p = allocate-Placed size₁ o₁ a₁ pos₁ fits₁ e₁

      v₁ : IsValid block_size a₁
      v₁ = Changed-IsValid v p.marked p.same_size

      q : Placed block_size size₂ a₁ o₂ a₂
      q =
          Allocated-Placed o₂ a₂
            (allocate-Allocated block_size size₂ a₁ v₁ pos₂ fits₂
              (rw (p.offset, p.same_size) region))
            e₂

      n₁ : ℕ
      n₁ = blocks_of block_size size₁

      n₂ : ℕ
      n₂ = blocks_of block_size size₂

      cover₁ : size₁ ≤ n₁ * block_size
      cover₁ = (div_ceil_bounds size₁ block_size v.positive fits₁).0

      cover₂ : size₂ ≤ n₂ * block_size
      cover₂ = (div_ceil_bounds size₂ block_size v.positive fits₂).0

      in₁ : o₁ + size₁ ≤ a.offset + a.size
      in₁ = omega (
        arith,
        p.at_block,
        cover₁,
        mul_mono (p.k + n₁) (block_count block_size a) block_size p.inside,
        div_mul-le a.size block_size,
      )

      in₂ : o₂ + size₂ ≤ a.offset + a.size
      in₂ = omega (
        arith,
        q.at_block,
        p.offset,
        p.same_size,
        cover₂,
        mul_mono (q.k + n₂) (block_count block_size a₁) block_size q.inside,
        div_mul-le a₁.size block_size,
      )

      apart : (o₁ + size₁ ≤ o₂) ⊎ (o₂ + size₂ ≤ o₁)
      apart = elim (dec_le (p.k + n₁) q.k) [
        | yes before ↦ inl (
            omega (
              arith,
              p.at_block,
              q.at_block,
              p.offset,
              cover₁,
              mul_mono (p.k + n₁) q.k block_size before,
            ))
        | no over ↦ elim (dec_le (q.k + n₂) p.k) [
          | yes after ↦ inr (
              omega (
                arith,
                p.at_block,
                q.at_block,
                p.offset,
                cover₂,
                mul_mono (q.k + n₂) p.k block_size after,
              ))
          | no both ↦
              let j : ℕ = max p.k q.k in
              let pos = (blocks_of_pos block_size size₁ v.positive pos₁ fits₁).0 in
              let pos' = (blocks_of_pos block_size size₂ v.positive pos₂ fits₂).0 in
              let f : used_in a₁ j ≡ false = q.free j (omega arith) (omega arith) in
              let t : used_in a₁ j ≡ true = p.marked.blocks j ∙ ground arith in
              absurd (ground arith)
        ]
      ]
