-- ===== src/Dirtiness/Info.antt =====
-- `PartialDirtinessTrackingInfo`: how many blocks an object has and how many bytes track them.
use vnv_heap.Base.{ℕ, ◌+◌, ◌-◌, ◌*◌, ◌%◌, ◌^◌, ◌≤◌, ◌≡◌, arith, if◌then◌else◌, ◌==◌}
use vnv_heap.Base.Words.{usize_size}
use vnv_heap.Util.{div_ceil, div_ceil_bounds}
use vnv_heap.Dirtiness.SizeInfo
use vnv_heap.Dirtiness.SizeInfo.{SizeInfoCache, get-new, get_last_byte_bit_cnt, get_last_block_size}

-- `PARTIAL_DIRTINESS_TACKING_BLOCK_SIZE`
abbrev pub block_size : ℕ
block_size = usize_size * 8

-- `MAX_SUPPORTED_PARTIAL_DIRTY_BUF_SIZE`
abbrev pub max_supported_buf_size : ℕ
max_supported_buf_size = 255

-- `MAX_SUPPORTED_PARTIAL_DIRTY_OBJ_SIZE`
abbrev pub max_supported_obj_size : ℕ
max_supported_obj_size = block_size * 8 * max_supported_buf_size

pub record PartialDirtinessTrackingInfo : Type 0 where
  pub byte_count : ℕ
  pub size_info_cache : SizeInfoCache

unfoldable pub new_unused : PartialDirtinessTrackingInfo
new_unused = record { byte_count = 0; size_info_cache = SizeInfo.new_unused }

unfoldable pub calc_bit_and_byte_count : ℕ → ℕ × ℕ
calc_bit_and_byte_count data_size =
    let bit_count = div_ceil data_size block_size in (bit_count, div_ceil bit_count 8)

-- `data_size` is the size of the layout.
unfoldable pub new_used_dynamic : ℕ → PartialDirtinessTrackingInfo
new_used_dynamic data_size =
    let (bit_count, byte_count) = calc_bit_and_byte_count data_size in
    let last_block_size =
      if data_size % block_size == 0 then block_size else data_size % block_size in
    let last_byte_bit_cnt = if bit_count % 8 == 0 then 8 else bit_count % 8 in
    record {
      byte_count = byte_count % 2 ^ 8;
      size_info_cache = SizeInfo.new last_byte_bit_cnt last_block_size;
    }

-- At least one byte and at most 255, one to eight bits in the last byte, a last block of one byte
-- to a whole block, and blocks that reach exactly to the end of an object of `size` bytes.
pub record Covers (size : ℕ) (i : PartialDirtinessTrackingInfo) : Type 0 where
  pub some_byte : 1 ≤ i.byte_count
  pub fits_u8 : i.byte_count ≤ max_supported_buf_size
  pub bits_lo : 1 ≤ get_last_byte_bit_cnt i.size_info_cache
  pub bits_hi : get_last_byte_bit_cnt i.size_info_cache ≤ 8
  pub last_lo : 1 ≤ get_last_block_size i.size_info_cache
  pub last_hi : get_last_block_size i.size_info_cache ≤ block_size
  pub exact :
      ((i.byte_count - 1) * 8 + get_last_byte_bit_cnt i.size_info_cache - 1) * block_size
        + get_last_block_size i.size_info_cache
      ≡ size

-- For an object of 1 to `max_supported_obj_size` bytes the byte count fits its `u8`, and the last
-- byte's bit count and the last block's size are such that the tracked blocks reach exactly to the
-- end of the object.
pub new_used_dynamic-Covers :
    (size : ℕ) → 1 ≤ size → size ≤ max_supported_obj_size → Covers size (new_used_dynamic size)
unfolding new_used_dynamic calc_bit_and_byte_count
new_used_dynamic-Covers size lo hi =
    let bits : ℕ = div_ceil size block_size in
    let bytes : ℕ = div_ceil bits 8 in
    let hb = div_ceil_bounds size block_size (omega arith) (omega arith) in
    let hB = div_ceil_bounds bits 8 (omega arith) (omega arith) in
    let cnt : ℕ = if bits % 8 == 0 then 8 else bits % 8 in
    let last : ℕ = if size % block_size == 0 then block_size else size % block_size in
    let c : (1 ≤ cnt) × (cnt ≤ 8) = ground arith in
    let l : (1 ≤ last) × (last ≤ block_size) = ground arith in
    let g = get-new cnt last c.0 c.1 (omega arith) in ground arith
