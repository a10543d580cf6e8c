-- ===== src/Block/Freed.antt =====
-- What `deallocate` promises.
use vnv_heap.Base.{ℕ, ◌+◌, ◌*◌, ◌/◌, ◌%◌, ◌≤◌, ◌<◌, ◌≡◌, refl, Bool, false, List, arith, length}
use vnv_heap.Base.Outcome.{Outcome, ok, ◌>>=◌}
use vnv_heap.Base.Words.{usize_mod, sub_usize}
use vnv_heap.Block.Allocator.{NonResidentBlockAllocator, clear_items, deallocate}
use vnv_heap.Block.Used.{Changed}
use vnv_heap.Block.Rounds.{block_count, IsValid}
use vnv_heap.Block.Mark.{Changes, changes}
use vnv_heap.Block.Clear.{clear_items-Changes}
use vnv_heap.Block.Correct.{blocks_of, blocks_of_pos, mul_mono, div_mul-le}

-- The result of `deallocate`: the blocks from `k` on are cleared, all else stays.
pub data Freed (a : NonResidentBlockAllocator) (k n : ℕ)
    : Outcome NonResidentBlockAllocator → Type 0 where
  freed :
      {a' : NonResidentBlockAllocator}
      → Changed false a.bit_list a'.bit_list k n
      → a'.offset ≡ a.offset
      → a'.size ≡ a.size
      → Freed a k n (ok a')

block_offset :
    (offset k block_size : ℕ)
    → 0 < block_size
    → offset + k * block_size < usize_mod
    → sub_usize (offset + k * block_size) offset / block_size ≡ k
block_offset offset k block_size pos fits =
    let e : sub_usize (offset + k * block_size) offset ≡ k * block_size = omega arith in
    rw e (grind arith)

module _ (block_size size k : ℕ) (a : NonResidentBlockAllocator) (v : IsValid block_size a)
    (some_bytes : 0 < size) (fits : size + block_size < usize_mod)
    (region : a.offset + a.size < usize_mod)
    (inside : k + blocks_of block_size size ≤ block_count block_size a) where
  -- On a valid allocator whose region ends within `usize`, for layouts of at least one byte whose
  -- size plus one block does not overflow: `deallocate` of a layout at the offset of block `k`,
  -- whose blocks are all managed, does not panic and frees exactly the blocks of the layout.
  pub deallocate-Freed :
      Freed a k
        (blocks_of block_size size)
        (deallocate block_size (a.offset + k * block_size) size a)
  unfolding deallocate
  deallocate-Freed = rw (block_offset a.offset k block_size v.positive small) (go _ cleared)
    where
      n : ℕ
      n = blocks_of block_size size

      small : a.offset + k * block_size < usize_mod
      small = omega (
        arith,
        mul_mono k (block_count block_size a) block_size (omega (arith, inside)),
        div_mul-le a.size block_size,
      )

      pos : (0 < n) × (n < usize_mod)
      pos = blocks_of_pos block_size size v.positive some_bytes fits

      cleared :
          Changes false a.bit_list k n
            (clear_items (length a.bit_list + 1) (k / 8) (k % 8) n a.bit_list)
      cleared =
          let e : k / 8 * 8 + k % 8 ≡ k = omega arith in
          rw e at (
            clear_items-Changes (length a.bit_list + 1) (k / 8) (k % 8) n a.bit_list v.items
              (omega arith) pos.0 pos.1 (omega (arith, inside, v.enough)) (omega arith))

      go :
          (r : Outcome (List ℕ))
          → Changes false a.bit_list k n r
          → Freed a k n (r >>= λ bit_list. ok (record a { bit_list = bit_list }))
      go _ (changes x) = freed x refl refl

-- `allocate` and `deallocate` keep the allocator valid.
pub Changed-IsValid :
    {to : Bool} {block_size k n : ℕ} {a a' : NonResidentBlockAllocator}
    → IsValid block_size a
    → Changed to a.bit_list a'.bit_list k n
    → a'.size ≡ a.size
    → IsValid block_size a'
Changed-IsValid v x e = record {
  items = x.items;
  small = rw e v.small;
  enough = rw (e, x.len) v.enough;
  positive = v.positive;
}
