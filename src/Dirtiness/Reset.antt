-- ===== src/Dirtiness/Reset.antt =====
-- `reset` and `reset_and_set_all_blocks_dirty`: no block is dirty after the first, every block of
-- the object and no unused bit after the second.
use vnv_heap.Base.{
  ℕ, zero, suc, ◌+◌, ◌-◌, ◌*◌, ◌/◌, ◌%◌, ◌^◌, ◌≤◌, ◌<◌, ◌≡◌, refl, sym, ◌∙◌, false, List, arith,
  if◌then◌else◌, ◌==◌, ltb, length, get_or, set, replicate, length-set, length-replicate,
  get_or-replicate, get_or-set_self, get_or-set_ne,
}
use native.Mathlib.Decide.{ℕ_discrete}
use vnv_heap.Base.Bits.{bit-low_mask, low_mask-lt, bit-zero}
use vnv_heap.Base.Sums.{sum_range-append, sum_range-const}
use vnv_heap.Dirtiness.SizeInfo.{get_last_byte_bit_cnt, get_last_block_size}
use vnv_heap.Dirtiness.Info.{
  block_size, max_supported_obj_size, Covers, new_used_dynamic, new_used_dynamic-Covers,
}
use vnv_heap.Dirtiness.Wrapper.{
  Wrapper, calc_dirty_size, fill_bytes, reset, reset_and_set_all_blocks_dirty,
}
use vnv_heap.Dirtiness.Blocks.{IsValid, IsByte, dirty_block, block_count, bytes_of_block_lem}
use vnv_heap.Dirtiness.Size.{dirty_bytes, calc_dirty_size-sum}
use vnv_heap.Base.{All, All-set}

length-fill_bytes : (n i : ℕ) (bytes : List ℕ) → length (fill_bytes n i bytes) ≡ length bytes
unfolding fill_bytes
length-fill_bytes zero i bytes = refl
length-fill_bytes (suc n) i bytes =
    length-fill_bytes n (i + 1) (set bytes i 255) ∙ length-set bytes i 255

All-fill_bytes : (n i : ℕ) (bytes : List ℕ) → All IsByte bytes → All IsByte (fill_bytes n i bytes)
unfolding fill_bytes
All-fill_bytes zero i bytes a = a
All-fill_bytes (suc n) i bytes a =
    All-fill_bytes n (i + 1) (set bytes i 255) (All-set IsByte bytes i 255 (omega arith) a)

fill_bytes-before :
    (n i j : ℕ) (bytes : List ℕ) → j < i → get_or (fill_bytes n i bytes) j 0 ≡ get_or bytes j 0
unfolding fill_bytes
fill_bytes-before zero i j bytes h = refl
fill_bytes-before (suc n) i j bytes h =
    fill_bytes-before n (i + 1) j (set bytes i 255) (omega arith)
    ∙ get_or-set_ne bytes 255 0 (omega arith)

fill_bytes-in :
    (n i j : ℕ) (bytes : List ℕ)
    → i ≤ j
    → j < i + n
    → j < length bytes
    → get_or (fill_bytes n i bytes) j 0 ≡ 255
unfolding fill_bytes
fill_bytes-in zero i j bytes lo hi inside = absurd (omega arith)
fill_bytes-in (suc n) i j bytes lo hi inside = elim (ℕ_discrete j i) [
  | yes e ↦ rw e (
      fill_bytes-before n (i + 1) i (set bytes i 255) (omega arith)
      ∙ get_or-set_self bytes i 255 0 (omega arith))
  | no ne ↦
      fill_bytes-in n (i + 1) j (set bytes i 255) (omega arith) (omega arith) (rw length-set inside)
]

module _ {w : Wrapper} (v : IsValid w) where
  abbrev last : ℕ
  last = length w.data_range - 1

  abbrev cnt : ℕ
  cnt = get_last_byte_bit_cnt w.size_info_cache

  abbrev mask : ℕ
  mask = if cnt == 8 then 255 else 2 ^ cnt - 1

  mask-eq : mask ≡ 2 ^ cnt - 1
  mask-eq = elim (ℕ_discrete cnt 8) [ yes e ↦ rw e refl | no ne ↦ ground arith ]

  filled : Wrapper
  filled = record w { data_range = set (fill_bytes last 0 w.data_range) last mask }

  reset-filled : reset_and_set_all_blocks_dirty w ≡ filled
  unfolding reset_and_set_all_blocks_dirty filled
  reset-filled =
      let b = v.some_byte in let h : (length w.data_range == 0) ≡ false = ground arith in rw h refl

  -- On a valid wrapper, after `reset_and_set_all_blocks_dirty` exactly the blocks of the object
  -- are dirty: the unused bits of the last byte stay 0.
  pub dirty_block-reset_all :
      (k : ℕ)
      → k < length w.data_range * 8
      → dirty_block (reset_and_set_all_blocks_dirty w) k ≡ ltb k (block_count w)
  unfolding filled
  dirty_block-reset_all k h = elim (ℕ_discrete (k / 8) last) [
    | yes e ↦
        rw
          (
            reset-filled,
            e,
            get_or-set_self (fill_bytes last 0 w.data_range) last mask 0
                (rw length-fill_bytes (omega (arith, v.some_byte))),
            mask-eq,
            bit-low_mask cnt (k % 8) v.bits_hi (omega arith),
          )
          (ground (arith, v.some_byte))
    | no ne ↦
        rw
          (
            reset-filled,
            get_or-set_ne (fill_bytes last 0 w.data_range) {i = last} {j = k / 8} mask 0
                (λ e. ne (sym e)),
            fill_bytes-in last 0 (k / 8) w.data_range (omega arith) (omega arith) (omega arith),
            bit-low_mask 8 (k % 8) (omega arith) (omega arith),
          )
          (ground (arith, v.bits_lo))
  ]

  reset_all-IsValid : IsValid (reset_and_set_all_blocks_dirty w)
  unfolding filled
  reset_all-IsValid =
      let e =
        length-set (fill_bytes last 0 w.data_range) last mask
        ∙ length-fill_bytes last 0 w.data_range in
      rw reset-filled (record {
        bytes =
            All-set IsByte _ last mask (rw mask-eq (low_mask-lt cnt v.bits_hi))
              (All-fill_bytes last 0 w.data_range v.bytes);
        some_byte = rw e v.some_byte;
        few_bytes = rw e v.few_bytes;
        bits_lo = v.bits_lo;
        bits_hi = v.bits_hi;
        last_hi = v.last_hi;
      })

  length-reset_all : length (reset_and_set_all_blocks_dirty w).data_range ≡ length w.data_range
  unfolding filled
  length-reset_all = rw (reset-filled, length-set, length-fill_bytes) refl

  dirty_bytes-reset_all :
      (k : ℕ)
      → k < length w.data_range * 8
      → dirty_bytes (reset_and_set_all_blocks_dirty w) k ≡ (
          if k + 1 == block_count w
          then get_last_block_size w.size_info_cache
          else if ltb k (block_count w)
          then block_size
          else 0)
  unfolding filled
  dirty_bytes-reset_all k h =
      rw
        (
          dirty_block-reset_all k h,
          bytes_of_block_lem {w = reset_and_set_all_blocks_dirty w} k reset_all-IsValid,
          length-reset_all,
          reset-filled,
        )
        (ground arith)

  -- With every block of the object dirty the dirty size is the size up to the end of the last
  -- block.
  pub get_dirty_size-reset_all :
      calc_dirty_size (reset_and_set_all_blocks_dirty w)
      ≡ (block_count w - 1) * block_size + get_last_block_size w.size_info_cache
  get_dirty_size-reset_all =
      let f : ℕ → ℕ = dirty_bytes (reset_and_set_all_blocks_dirty w) in
      let n : ℕ = block_count w in
      let rest : ℕ = length w.data_range * 8 - n in
      let a = v.some_byte in
      let b = v.bits_lo in
      let c = v.bits_hi in
      let total : length w.data_range * 8 ≡ (n - 1) + (1 + rest) = omega arith in
      let full =
        sum_range-const f block_size 0 (n - 1)
          (λ k lo hi. dirty_bytes-reset_all k (omega arith) ∙ ground arith) in
      let one =
        sum_range-const f (get_last_block_size w.size_info_cache) (0 + (n - 1)) 1
          (λ k lo hi. dirty_bytes-reset_all k (omega arith) ∙ ground arith) in
      let none_left =
        sum_range-const f 0 (0 + (n - 1) + 1) rest
          (λ k lo hi. dirty_bytes-reset_all k (omega arith) ∙ ground arith) in
      let sum = calc_dirty_size-sum (reset_and_set_all_blocks_dirty w) reset_all-IsValid in
      rw
        (
          sum,
          length-reset_all,
          total,
          sum_range-append f 0 (n - 1) (1 + rest),
          sum_range-append f (0 + (n - 1)) 1 rest,
          full,
          one,
          none_left,
        )
        (omega arith)

All-replicate : (n : ℕ) → All IsByte (replicate n 0)
All-replicate zero = tt
All-replicate (suc n) = (omega arith, All-replicate n)

get_dirty_size-reset : {w : Wrapper} → IsValid w → calc_dirty_size (reset w) ≡ 0
unfolding reset
get_dirty_size-reset {w} v =
    calc_dirty_size-sum (reset w) (record {
      bytes = All-replicate (length w.data_range);
      some_byte = rw length-replicate v.some_byte;
      few_bytes = rw length-replicate v.few_bytes;
      bits_lo = v.bits_lo;
      bits_hi = v.bits_hi;
      last_hi = v.last_hi;
    })
    ∙ sum_range-const (dirty_bytes (reset w)) 0 0 _ (λ k lo hi.
      rw (get_or-replicate {A = ℕ} (length w.data_range) (k / 8) 0, bit-zero (k % 8)) refl)
    ∙ omega arith

-- Over the wrapper of an object of 1 to `max_supported_obj_size` bytes, whose bit list has the
-- `byte_count` bytes that `new_used_dynamic` counts: after `reset_and_set_all_blocks_dirty` the
-- dirty size is the object's size, and after `reset` it is 0.
pub get_dirty_size-object :
    (size : ℕ) (w : Wrapper)
    → 1 ≤ size
    → size ≤ max_supported_obj_size
    → All IsByte w.data_range
    → length w.data_range ≡ (new_used_dynamic size).byte_count
    → w.size_info_cache ≡ (new_used_dynamic size).size_info_cache
    → (calc_dirty_size (reset_and_set_all_blocks_dirty w) ≡ size) × (calc_dirty_size (reset w) ≡ 0)
get_dirty_size-object size w lo hi bytes len info =
    (get_dirty_size-reset_all valid ∙ rw (len, info) c.exact, get_dirty_size-reset valid)
  where
    c : Covers size (new_used_dynamic size)
    c = new_used_dynamic-Covers size lo hi

    valid : IsValid w
    valid = record {
      bytes = bytes;
      some_byte = rw len c.some_byte;
      few_bytes = rw len c.fits_u8;
      bits_lo = rw info c.bits_lo;
      bits_hi = rw info c.bits_hi;
      last_hi = rw info c.last_hi;
    }
