-- ===== src/Block/Allocator.antt =====
-- `NonResidentBlockAllocator`: its state and operations. The const generic `BLOCK_SIZE` is a
-- parameter of the section, `BIT_LIST_SIZE` is the length of `bit_list`.
use vnv_heap.Base.{
  ℕ, zero, suc, ◌+◌, ◌-◌, ◌/◌, ◌%◌, ◌^◌, Bool, true, false, ◌&&◌, List, bit_and, bit_or,
  if◌then◌else◌, ◌==◌, leb, length, get_elem?, set, replicate,
}
use vnv_heap.Base.Outcome.{Outcome, ok, err, panic, or_panic, ◌>>=◌}
use vnv_heap.Base.Words.{usize_mod, usize_size, add_usize, sub_usize, mul_usize}
use vnv_heap.Util.{div_ceil}

pub record NonResidentBlockAllocator : Type 0 where
  pub bit_list : List ℕ
  pub offset : ℕ
  pub size : ℕ

-- The locals of the search in `allocate`.
pub record Search : Type 0 where
  pub list_index_start : ℕ
  pub bit_index_start : ℕ
  pub list_index_end : ℕ
  pub bit_index_end : ℕ
  pub matched_block_cnt : ℕ

-- One bit of the search, free or used; `free_block` is the branch `item & 1 == 0`.
abbrev pub free_block : ℕ → ℕ → Search → Search
free_block list_index i s =
    let matched = s.matched_block_cnt + 1 in
    record s {
      matched_block_cnt = matched;
      list_index_start = if matched == 1 then list_index else s.list_index_start;
      bit_index_start = if matched == 1 then i else s.bit_index_start;
    }

abbrev pub used_block : Search → Search
used_block s = record s { matched_block_cnt = 0 }

abbrev pub end_block : ℕ → ℕ → Search → Search
end_block list_index i s = record s { list_index_end = list_index; bit_index_end = i }

-- `for i in 0..end`, with the rounds that are left; the flag is `break 'outer`.
unfoldable pub scan_bits : ℕ → ℕ → ℕ → ℕ → ℕ → Search → Search × Bool
scan_bits required list_index zero i item s = (s, false)
scan_bits required list_index (suc n) i item s =
    let s' = if bit_and item 1 == 0 then free_block list_index i s else used_block s in
    let rest = scan_bits required list_index n (i + 1) (item / 2) s' in
    if (bit_and item 1 == 0) && s'.matched_block_cnt == required
    then (end_block list_index i s', true)
    else rest

-- `for i in bit_start..=bit_end { self.bit_list[list_index] |= 1 << i }`
unfoldable pub mark_bits : ℕ → ℕ → ℕ → List ℕ → Outcome (List ℕ)
mark_bits list_index zero i bit_list = ok bit_list
mark_bits list_index (suc n) i bit_list = do
  item ← or_panic (get_elem? bit_list list_index)
  mark_bits list_index n (i + 1) (set bit_list list_index (bit_or item (2 ^ i)))

-- `for list_index in list_index_start..=list_index_end`
unfoldable pub mark_items : Search → ℕ → ℕ → List ℕ → Outcome (List ℕ)
mark_items s zero list_index bit_list = ok bit_list
mark_items s (suc n) list_index bit_list = do
  let bit_start = if list_index == s.list_index_start then s.bit_index_start else 0
  let bit_end = if list_index == s.list_index_end then s.bit_index_end else usize_size - 1
  bit_list' ← mark_bits list_index (bit_end + 1 - bit_start) bit_start bit_list
  mark_items s n (list_index + 1) bit_list'

-- The inner loop of `deallocate`: the bits of one item that are left, the next bit, and the blocks
-- still to free. The flag is `break 'outer`; `required_blocks -= 1` wraps.
unfoldable pub clear_bits : ℕ → ℕ → ℕ → ℕ → List ℕ → Outcome (List ℕ × ℕ × Bool)
clear_bits index zero bit_index required bit_list = ok (bit_list, required, false)
clear_bits index (suc n) bit_index required bit_list = do
  item ← or_panic (get_elem? bit_list index)
  let bit_list' = set bit_list index (bit_and item (usize_mod - 1 - 2 ^ bit_index))
  let required' = sub_usize required 1
  let rest = clear_bits index n (bit_index + 1) required' bit_list'
  if required' == 0 then ok (bit_list', required', true) else rest

-- `for index in start_item_index..`. The loop ends by its break or by the index out of bounds, so
-- `length bit_list + 1` rounds are enough from any start.
unfoldable pub clear_items : ℕ → ℕ → ℕ → ℕ → List ℕ → Outcome (List ℕ)
clear_items zero index start required bit_list = panic
clear_items (suc fuel) index start required bit_list = do
  (bit_list', required', done) ← clear_bits index (usize_size - start) start required bit_list
  let rest = clear_items fuel (index + 1) 0 required' bit_list'
  if done then ok bit_list' else rest

module _ (block_size : ℕ) where
  unfoldable pub calc_non_resident_block_allocator_bit_list_size : ℕ → ℕ
  calc_non_resident_block_allocator_bit_list_size total_size =
      div_ceil (div_ceil total_size block_size) usize_size

  unfoldable pub bit_list_available_size : ℕ → ℕ
  bit_list_available_size size = div_ceil (size / block_size) usize_size

  unfoldable pub bit_list_last_item_block_cnt : ℕ → ℕ
  bit_list_last_item_block_cnt size =
      let tmp = size / block_size % usize_size in if tmp == 0 then usize_size else tmp

  unfoldable pub new : ℕ → NonResidentBlockAllocator
  new bit_list_size = record { bit_list = replicate bit_list_size 0; offset = 0; size = 0 }

  -- The `assert!` panics.
  unfoldable pub init : ℕ → ℕ → NonResidentBlockAllocator → Outcome NonResidentBlockAllocator
  init offset size a =
      if leb (calc_non_resident_block_allocator_bit_list_size size) (length a.bit_list)
      then ok (record {
        bit_list = replicate (length a.bit_list) 0;
        offset = offset;
        size = mul_usize (size / block_size) block_size;
      })
      else panic

  -- `for list_index in 0..bit_list_size`
  unfoldable pub scan_items : NonResidentBlockAllocator → ℕ → ℕ → ℕ → ℕ → Search → Outcome Search
  scan_items a required bit_list_size zero list_index s = ok s
  scan_items a required bit_list_size (suc n) list_index s = do
    item ← or_panic (get_elem? a.bit_list list_index)
    let end =
        if list_index == sub_usize bit_list_size 1
        then bit_list_last_item_block_cnt a.size
        else usize_size
    let (s', found) = scan_bits required list_index end 0 item s
    let rest = scan_items a required bit_list_size n (list_index + 1) s'
    if found then ok s' else rest

  -- `size` is the size of the layout. With the offset comes the new allocator.
  unfoldable pub allocate : ℕ → NonResidentBlockAllocator → Outcome (ℕ × NonResidentBlockAllocator)
  allocate size a =
      let required = div_ceil size block_size in
      let bit_list_size = bit_list_available_size a.size in
      let start : Search = record {
        list_index_start = 0;
        bit_index_start = 0;
        list_index_end = 0;
        bit_index_end = 0;
        matched_block_cnt = 0;
      } in
      do
        s ← scan_items a required bit_list_size bit_list_size 0 start
        let marked = do
          bit_list ←
              mark_items s (s.list_index_end + 1 - s.list_index_start) s.list_index_start a.bit_list
          let rel_offset =
              add_usize (mul_usize s.list_index_start (mul_usize usize_size block_size))
                (mul_usize s.bit_index_start block_size)
          ok (add_usize a.offset rel_offset, record a { bit_list = bit_list })
        if s.matched_block_cnt == required then marked else err

  unfoldable pub deallocate : ℕ → ℕ → NonResidentBlockAllocator → Outcome NonResidentBlockAllocator
  deallocate offset size a =
      let required = div_ceil size block_size in
      let block_offset = sub_usize offset a.offset / block_size in
      do
        bit_list ←
            clear_items (length a.bit_list + 1) (block_offset / usize_size)
              (block_offset % usize_size) required a.bit_list
        ok (record a { bit_list = bit_list })
