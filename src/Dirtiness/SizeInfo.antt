-- ===== src/Dirtiness/SizeInfo.antt =====
-- `SizeInfoCache`: the bit count of the last byte and the size of the last block in one `u16`.
use vnv_heap.Base.{ℕ, ◌+◌, ◌*◌, ◌/◌, ◌%◌, ◌^◌, ◌≤◌, ◌<◌, ◌≡◌, bit_and, bit_or, arith}
use vnv_heap.Base.Words.{sub_usize}
use vnv_heap.Base.Digits.{bit_or_fields, bit_and_seven}

-- The field `data` of the source; the word is reserved here.
pub record SizeInfoCache : Type 0 where
  pub word : ℕ

-- `LAST_BLOCK_SIZE_OFFSET`
abbrev pub last_block_size_offset : ℕ
last_block_size_offset = 3

-- `GET_LAST_BYTE_BIT_CNT_BITMASK`
abbrev pub get_last_byte_bit_cnt_bitmask : ℕ
get_last_byte_bit_cnt_bitmask = 7

abbrev pub max_block_size : ℕ
max_block_size = 2 ^ 13

unfoldable pub new_unused : SizeInfoCache
new_unused = record { word = 0 }

-- The casts `as u16` and the shift of a `u16` cut off the high bits.
unfoldable pub new : ℕ → ℕ → SizeInfoCache
new last_byte_bit_cnt last_block_size =
    let cnt = sub_usize last_byte_bit_cnt 1 % 2 ^ 16 in
    let size = last_block_size % 2 ^ 16 in
    record { word = bit_or cnt (size * 2 ^ last_block_size_offset % 2 ^ 16) }

unfoldable pub get_last_byte_bit_cnt : SizeInfoCache → ℕ
get_last_byte_bit_cnt c = bit_and c.word get_last_byte_bit_cnt_bitmask + 1

unfoldable pub get_last_block_size : SizeInfoCache → ℕ
get_last_block_size c = c.word / 2 ^ last_block_size_offset

-- The getters give back what `new` packs, for a bit count from 1 to 8 and a block size below
-- `max_block_size`, the ranges that `new` asserts in debug builds.
pub get-new :
    (cnt size : ℕ)
    → 1 ≤ cnt
    → cnt ≤ 8
    → size < max_block_size
    → (get_last_byte_bit_cnt (new cnt size) ≡ cnt) × (get_last_block_size (new cnt size) ≡ size)
unfolding new get_last_byte_bit_cnt get_last_block_size
get-new cnt size lo hi h = omega (
  arith,
  shifted,
  bit_or_fields (sub_usize cnt 1 % 2 ^ 16) size (omega arith),
  bit_and_seven (bit_or (sub_usize cnt 1 % 2 ^ 16) (size % 2 ^ 16 * 2 ^ 3 % 2 ^ 16)),
)
  where
    shifted :
        bit_or (sub_usize cnt 1 % 2 ^ 16) (size % 2 ^ 16 * 2 ^ 3 % 2 ^ 16)
        ≡ bit_or (sub_usize cnt 1 % 2 ^ 16) (size * 8)
    shifted = let e : size % 2 ^ 16 * 2 ^ 3 % 2 ^ 16 ≡ size * 8 = omega arith in rw e
