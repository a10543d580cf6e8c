-- ===== src/Dirtiness/Wrapper.antt =====
-- `PartialDirtinessTrackingWrapper`: the bit list, its measurements and its updates. `none` is an
-- index out of bounds.
use vnv_heap.Base.{
  ℕ, zero, suc, ◌+◌, ◌-◌, ◌/◌, ◌%◌, ◌^◌, Bool, true, false, not, ◌&&◌, List, [], ◌∷◌, Option, some,
  bit_and, bit_or, if◌then◌else◌, ◌==◌, ◌>>=◌, length, get_elem?, set, replicate,
}
use vnv_heap.Base.Words.{add_usize, sub_usize, mul_usize}
use vnv_heap.Util.{div_ceil}
use vnv_heap.Dirtiness.SizeInfo.{SizeInfoCache, get_last_byte_bit_cnt, get_last_block_size}
use vnv_heap.Dirtiness.Info.{block_size}

pub record Wrapper : Type 0 where
  pub data_range : List ℕ
  pub size_info_cache : SizeInfoCache

-- Is this bit the one of the object's last block?
abbrev pub is_last_block : Wrapper → ℕ → ℕ → Bool
is_last_block w byte_index bit_index =
    byte_index == sub_usize (length w.data_range) 1
    && bit_index == sub_usize (get_last_byte_bit_cnt w.size_info_cache) 1

abbrev pub size_at : Wrapper → ℕ → ℕ → ℕ
size_at w byte_index bit_index =
    if is_last_block w byte_index bit_index
    then get_last_block_size w.size_info_cache
    else block_size

-- `for bit_index in 0..8`, with the rounds that are left.
unfoldable pub calc_bits : Wrapper → ℕ → ℕ → ℕ → ℕ → ℕ → ℕ
calc_bits w byte_index zero bit_index cpy dirty_size = dirty_size
calc_bits w byte_index (suc n) bit_index cpy dirty_size =
    calc_bits w byte_index n (bit_index + 1) (cpy / 2) (
      if bit_and cpy 1 == 1
      then add_usize dirty_size (size_at w byte_index bit_index)
      else dirty_size)

-- `for byte_index in 0..self.data_range.len()`, over the bytes that are left.
unfoldable pub calc_bytes : Wrapper → ℕ → List ℕ → ℕ → ℕ
calc_bytes w byte_index [] dirty_size = dirty_size
calc_bytes w byte_index (cpy ∷ rest) dirty_size =
    calc_bytes w (byte_index + 1) rest (calc_bits w byte_index 8 0 cpy dirty_size)

unfoldable pub calc_dirty_size : Wrapper → ℕ
calc_dirty_size w = calc_bytes w 0 w.data_range 0

abbrev pub get_dirty_size : Wrapper → ℕ
get_dirty_size = calc_dirty_size

unfoldable pub reset : Wrapper → Wrapper
reset w = record w { data_range = replicate (length w.data_range) 0 }

abbrev pub set_all_blocks_synced : Wrapper → Wrapper
set_all_blocks_synced = reset

-- `for index in 0..len - 1`: the rounds that are left, and the index.
unfoldable pub fill_bytes : ℕ → ℕ → List ℕ → List ℕ
fill_bytes zero index bytes = bytes
fill_bytes (suc n) index bytes = fill_bytes n (index + 1) (set bytes index 255)

unfoldable pub reset_and_set_all_blocks_dirty : Wrapper → Wrapper
reset_and_set_all_blocks_dirty w =
    if length w.data_range == 0
    then w
    else let last = length w.data_range - 1 in
      let bytes = fill_bytes last 0 w.data_range in
      let cnt = get_last_byte_bit_cnt w.size_info_cache in
      record w { data_range = set bytes last (if cnt == 8 then 255 else 2 ^ cnt - 1) }

abbrev pub set_all_blocks_dirty : Wrapper → Wrapper
set_all_blocks_dirty = reset_and_set_all_blocks_dirty

unfoldable pub check_dirty_status_in_block : Wrapper → ℕ → Bool → Option ℕ
check_dirty_status_in_block w addr_offset dirty =
    let block_index = addr_offset / block_size in
    let byte_index = block_index / 8 in
    let bit_index = block_index % 8 in
    do
      item ← get_elem? w.data_range byte_index
      let is_dirty = not (bit_and item (2 ^ bit_index) == 0)
      some (
          if not is_dirty && dirty
          then 0
          else if is_dirty && not dirty
          then 0
          else size_at w byte_index bit_index)

-- `for i in 0..div_ceil(size, BLOCK_SIZE)`: the rounds that are left, `i`, and `res`.
unfoldable pub status_loop : Wrapper → ℕ → Bool → ℕ → ℕ → ℕ → Option ℕ
status_loop w addr_offset dirty zero i res = some res
status_loop w addr_offset dirty (suc n) i res = do
  bytes ← check_dirty_status_in_block w (add_usize addr_offset (mul_usize i block_size)) dirty
  status_loop w addr_offset dirty n (i + 1) (add_usize res bytes)

unfoldable pub get_dirty_status_in_range : Wrapper → ℕ → ℕ → Bool → Option ℕ
get_dirty_status_in_range w addr_offset size dirty =
    status_loop w addr_offset dirty (div_ceil size block_size) 0 0

abbrev pub get_dirty_size_in_range : Wrapper → ℕ → ℕ → Option ℕ
get_dirty_size_in_range w addr_offset size = get_dirty_status_in_range w addr_offset size true

abbrev pub get_non_dirty_size_in_range : Wrapper → ℕ → ℕ → Option ℕ
get_non_dirty_size_in_range w addr_offset size = get_dirty_status_in_range w addr_offset size false

unfoldable pub update_block_dirty : Wrapper → ℕ → Bool → Option Wrapper
update_block_dirty w addr_offset dirty =
    let block_index = addr_offset / block_size in
    let byte_index = block_index / 8 in
    let bit_mask = 2 ^ (block_index % 8) in
    do
      item ← get_elem? w.data_range byte_index
      let item' = if dirty then bit_or item bit_mask else bit_and item (255 - bit_mask)
      some (record w { data_range = set w.data_range byte_index item' })

unfoldable pub update_loop : Wrapper → ℕ → Bool → ℕ → ℕ → Option Wrapper
update_loop w addr_offset dirty zero i = some w
update_loop w addr_offset dirty (suc n) i = do
  w' ← update_block_dirty w (add_usize addr_offset (mul_usize i block_size)) dirty
  update_loop w' addr_offset dirty n (i + 1)

unfoldable pub update_range_dirty : Wrapper → ℕ → ℕ → Bool → Option Wrapper
update_range_dirty w addr_offset size dirty =
    update_loop w addr_offset dirty (div_ceil size block_size) 0

abbrev pub set_range_dirty : Wrapper → ℕ → ℕ → Option Wrapper
set_range_dirty w addr_offset size = update_range_dirty w addr_offset size true

abbrev pub unset_range_dirty : Wrapper → ℕ → ℕ → Option Wrapper
unset_range_dirty w addr_offset size = update_range_dirty w addr_offset size false
