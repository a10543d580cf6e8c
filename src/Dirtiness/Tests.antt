-- ===== src/Dirtiness/Tests.antt =====
-- The theorems on `partial_dirtiness_tracking.rs` at an object of 700 bytes, eleven blocks in two
-- bytes.
use vnv_heap.Base.{ℕ, ◌+◌, ◌≡◌, refl, true, false, some, [], ◌∷◌, arith, if◌then◌else◌, ltb}
use vnv_heap.Base.Sums.{sum_range}
use vnv_heap.Util.{div_ceil}
use vnv_heap.Dirtiness.SizeInfo
use vnv_heap.Dirtiness.SizeInfo.{SizeInfoCache, get-new, get_last_byte_bit_cnt, get_last_block_size}
use vnv_heap.Dirtiness.Info.{
  Covers, calc_bit_and_byte_count, new_used_dynamic, new_used_dynamic-Covers,
}
use vnv_heap.Dirtiness.Wrapper.{
  Wrapper, calc_bits, calc_bytes, calc_dirty_size, reset, reset_and_set_all_blocks_dirty,
  update_range_dirty, set_range_dirty, get_non_dirty_size_in_range,
}
use vnv_heap.Dirtiness.Blocks.{IsValid, dirty_block, block_count}
use vnv_heap.Dirtiness.Size.{dirty_bytes, calc_dirty_size-sum}
use vnv_heap.Dirtiness.Reset.{dirty_block-reset_all, get_dirty_size-object}
use vnv_heap.Base.{Option, none, suc}
use vnv_heap.Base.Bits.{bit}
use vnv_heap.Base.Outcome.{Outcome, ok, err, panic, out_of_fuel}
use vnv_heap.Dirtiness.SyncIter.{SyncDirtyIter, At, Step, advance_bit, advance_bit-Step}
use vnv_heap.Dirtiness.SyncNext.{next, find_start, skip_dirty, end_offset}
use vnv_heap.Dirtiness.Accounting.{
  touches, update_range_dirty-blocks, set_range_dirty-size, set_range_dirty-missed,
}

-- Blocks 0, 2 and 9 are dirty.
abbrev two_bytes : Wrapper
two_bytes = record { data_range = 5 ∷ 2 ∷ []; size_info_cache = record { word = 482 } }

two_bytes-IsValid : IsValid two_bytes
unfolding get_last_byte_bit_cnt get_last_block_size
two_bytes-IsValid = record {
  bytes = (omega arith, (omega arith, tt));
  some_byte = omega arith;
  few_bytes = omega arith;
  bits_lo = omega arith;
  bits_hi = omega arith;
  last_hi = omega arith;
}

two_bytes_size : calc_dirty_size two_bytes ≡ 192
unfolding calc_dirty_size calc_bytes calc_bits get_last_byte_bit_cnt
two_bytes_size = refl

get-new_example :
    (get_last_byte_bit_cnt (SizeInfo.new 3 60) ≡ 3) × (get_last_block_size (SizeInfo.new 3 60) ≡ 60)
get-new_example = get-new 3 60 (omega arith) (omega arith) (omega arith)

new_used_dynamic-Covers_example : Covers 700 (new_used_dynamic 700)
new_used_dynamic-Covers_example = new_used_dynamic-Covers 700 (omega arith) (omega arith)

calc_dirty_size-sum_example : calc_dirty_size two_bytes ≡ sum_range (dirty_bytes two_bytes) 0 16
calc_dirty_size-sum_example = calc_dirty_size-sum two_bytes two_bytes-IsValid

dirty_block-reset_all_example :
    dirty_block (reset_and_set_all_blocks_dirty two_bytes) 12 ≡ ltb 12 (block_count two_bytes)
dirty_block-reset_all_example = dirty_block-reset_all two_bytes-IsValid 12 (omega arith)

counted : 2 ≡ (new_used_dynamic 700).byte_count
unfolding new_used_dynamic calc_bit_and_byte_count div_ceil
counted = refl

cached : two_bytes.size_info_cache ≡ (new_used_dynamic 700).size_info_cache
unfolding new_used_dynamic calc_bit_and_byte_count SizeInfo.new div_ceil
cached = refl

get_dirty_size-object_example :
    (calc_dirty_size (reset_and_set_all_blocks_dirty two_bytes) ≡ 700)
    × (calc_dirty_size (reset two_bytes) ≡ 0)
get_dirty_size-object_example =
    get_dirty_size-object 700 two_bytes (omega arith) (omega arith)
      (IsValid.bytes two_bytes-IsValid) counted cached

update_range_dirty-blocks_example :
    (w' : Wrapper) × (update_range_dirty two_bytes 64 200 false ≡ some w')
    × IsValid w'
    × ((j : ℕ) → dirty_block w' j ≡ (if touches 64 200 j then false else dirty_block two_bytes j))
update_range_dirty-blocks_example =
    update_range_dirty-blocks 64 200 false two_bytes-IsValid refl (omega arith)

-- The bytes 60 to 69 lie in the blocks 0 and 1.
set_range_dirty-missed_example :
    (w' : Wrapper) × (set_range_dirty two_bytes 60 10 ≡ some w')
    × (touches 60 10 1 ≡ true)
    × (dirty_block w' 1 ≡ dirty_block two_bytes 1)
unfolding div_ceil
set_range_dirty-missed_example =
    set_range_dirty-missed 60 10 two_bytes-IsValid (omega arith) (omega arith)

set_range_dirty-size_example :
    (w' : Wrapper) × (bytes : ℕ) × (get_non_dirty_size_in_range two_bytes 64 200 ≡ some bytes)
    × (set_range_dirty two_bytes 64 200 ≡ some w')
    × (calc_dirty_size w' ≡ calc_dirty_size two_bytes + bytes)
    × (get_non_dirty_size_in_range w' 64 200 ≡ some 0)
unfolding div_ceil
set_range_dirty-size_example = set_range_dirty-size 64 200 two_bytes-IsValid (omega arith)

abbrev at_nine : SyncDirtyIter
at_nine = record {
  curr_byte = 1;
  curr_byte_id = 1;
  curr_bit_id = 1;
  reached_end = false;
  wrapper_data = two_bytes;
}

at_nine-At : At 9 at_nine
unfolding bit
at_nine-At = record {
  byte_id = refl;
  bit_id = refl;
  running = refl;
  bits = λ j. let z : 1 + j ≡ suc j = omega arith in rw z refl;
}

abbrev map_range : Outcome (Option (ℕ × ℕ) × SyncDirtyIter) → Option (ℕ × ℕ)
map_range (ok r) = r.0
map_range err = none
map_range panic = none
map_range out_of_fuel = none

advance_bit-Step_example :
    (i' : SyncDirtyIter) × (advance_bit at_nine ≡ some i') × Step 9 at_nine i'
advance_bit-Step_example =
    advance_bit-Step 9 at_nine two_bytes-IsValid at_nine-At
      (unfold get_last_byte_bit_cnt in omega arith)

-- From block 1 on, the range of block 2.
second_range :
    map_range (
      next 12 (record {
        curr_byte = 2;
        curr_byte_id = 0;
        curr_bit_id = 1;
        reached_end = false;
        wrapper_data = two_bytes;
      }))
    ≡ some (128, 192)
unfolding next find_start skip_dirty end_offset advance_bit get_last_byte_bit_cnt
second_range = refl
