-- ===== src/Block/Init.antt =====
-- What `init` promises.
use vnv_heap.Base.{
  ℕ, zero, suc, ◌+◌, ◌*◌, ◌/◌, ◌%◌, ◌≤◌, ◌<◌, ◌≡◌, refl, true, false, arith, leb, All, length,
  replicate, get_or-replicate, length-replicate,
}
use native.Mathlib.Decide.{dec_le}
use vnv_heap.Base.Bits.{bit-zero}
use vnv_heap.Base.Outcome.{ok}
use vnv_heap.Base.Words.{usize_mod, mul_usize}
use vnv_heap.Util.{div_ceil, div_ceil_bounds}
use vnv_heap.Block.Allocator.{
  NonResidentBlockAllocator, init, calc_non_resident_block_allocator_bit_list_size,
}
use vnv_heap.Block.Used.{IsItem}
use vnv_heap.Block.Rounds.{block_count, IsValid}
use vnv_heap.Block.Correct.{used_in, mul_mono, div_mul-le, le-mul}

mul_cancel : (q r b : ℕ) → 0 < b → q * b ≤ r * b → q ≤ r
mul_cancel q r b pos h = elim (dec_le q r) [
  | yes le ↦ le
  | no gt ↦ absurd (let m = mul_mono (suc r) q b (omega arith) in omega arith)
]

-- For a block size above 0, and a size of the region that with one block and 8 more does not
-- overflow: `init` does not panic where the bit list has at least the size that
-- `calc_non_resident_block_allocator_bit_list_size` asks for. It gives a valid allocator that
-- manages the whole blocks of the region from the offset on, all of them free.
pub init-IsValid :
    (block_size offset size : ℕ) (a : NonResidentBlockAllocator)
    → 0 < block_size
    → size + block_size + 8 < usize_mod
    → calc_non_resident_block_allocator_bit_list_size block_size size ≤ length a.bit_list
    → (a' : NonResidentBlockAllocator) × (init block_size offset size a ≡ ok a')
      × IsValid block_size a'
      × (a'.offset ≡ offset)
      × (block_count block_size a' ≡ size / block_size)
      × ((j : ℕ) → used_in a' j ≡ false)
unfolding init calc_non_resident_block_allocator_bit_list_size
init-IsValid block_size offset size a pos fits enough = (
  fresh,
  (let t : leb (div_ceil (div_ceil size block_size) 8) (length a.bit_list) ≡ true = ground arith in
      rw t refl),
  record {
    items = all_zero (length a.bit_list);
    small = rw count (omega (arith, less));
    enough = rw (count, length-replicate) (omega (arith, less, words));
    positive = pos;
  },
  refl,
  count,
  λ j. rw (get_or-replicate {A = ℕ} (length a.bit_list) (j / 8) 0) (bit-zero (j % 8)),
)
  where
    fresh : NonResidentBlockAllocator
    fresh = record {
      bit_list = replicate (length a.bit_list) 0;
      offset = offset;
      size = mul_usize (size / block_size) block_size;
    }

    all_zero : (n : ℕ) → All IsItem (replicate n 0)
    all_zero zero = tt
    all_zero (suc n) = (omega arith, all_zero n)

    whole : mul_usize (size / block_size) block_size ≡ size / block_size * block_size
    whole = omega (arith, div_mul-le size block_size)

    count : mul_usize (size / block_size) block_size / block_size ≡ size / block_size
    count = rw whole (grind arith)

    bounds :
        (size ≤ div_ceil size block_size * block_size)
        × (div_ceil size block_size * block_size < size + block_size)
    bounds = div_ceil_bounds size block_size pos (omega arith)

    less :
        (size / block_size ≤ div_ceil size block_size)
        × (div_ceil size block_size ≤ size + block_size)
    less = (
      mul_cancel (size / block_size) (div_ceil size block_size) block_size pos
          (omega (arith, div_mul-le size block_size, bounds)),
      omega (arith, le-mul (div_ceil size block_size) block_size pos, bounds),
    )

    words : div_ceil size block_size ≤ div_ceil (div_ceil size block_size) 8 * 8
    words = (div_ceil_bounds (div_ceil size block_size) 8 (omega arith) (omega (arith, less))).0
