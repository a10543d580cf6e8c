-- ===== src/Block/Tests.antt =====
-- The theorems on the block allocator of `block.rs` at an allocator of twelve blocks of 32 bytes,
-- whose blocks 0, 1, 3 and 8 are in use.
use vnv_heap.Base.{ℕ, ◌+◌, ◌≤◌, ◌≡◌, refl, ◌⊎◌, false, [], ◌∷◌, arith}
use vnv_heap.Base.Outcome.{ok, err, panic}
use vnv_heap.Util.{div_ceil}
use vnv_heap.Block.Allocator.{
  NonResidentBlockAllocator, init, allocate, deallocate, scan_bits, scan_items, mark_bits,
  mark_items, clear_bits, clear_items, bit_list_available_size, bit_list_last_item_block_cnt,
  calc_non_resident_block_allocator_bit_list_size,
}
use vnv_heap.Block.Rounds.{block_count, IsValid}
use vnv_heap.Block.Correct.{used_in, Allocated, allocate-Allocated}
use vnv_heap.Block.Freed.{Freed, deallocate-Freed}
use vnv_heap.Block.Contract.{deallocate-allocate, allocate-allocate_apart}
use vnv_heap.Block.Init.{init-IsValid}

abbrev twelve : NonResidentBlockAllocator
twelve = record { bit_list = 11 ∷ 1 ∷ []; offset = 1000; size = 384 }

-- After 70 bytes at block 4, and 40 more at block 9.
abbrev twelve₁ : NonResidentBlockAllocator
twelve₁ = record { bit_list = 123 ∷ 1 ∷ []; offset = 1000; size = 384 }

abbrev twelve₂ : NonResidentBlockAllocator
twelve₂ = record { bit_list = 123 ∷ 7 ∷ []; offset = 1000; size = 384 }

twelve-IsValid : IsValid 32 twelve
twelve-IsValid = record {
  items = (omega arith, (omega arith, tt));
  small = omega arith;
  enough = omega arith;
  positive = omega arith;
}

first : allocate 32 70 twelve ≡ ok (1128, twelve₁)
unfolding allocate div_ceil scan_items scan_bits mark_items mark_bits bit_list_available_size
    bit_list_last_item_block_cnt
first = refl

second : allocate 32 40 twelve₁ ≡ ok (1288, twelve₂)
unfolding allocate div_ceil scan_items scan_bits mark_items mark_bits bit_list_available_size
    bit_list_last_item_block_cnt
second = refl

no_room : allocate 32 200 twelve ≡ err
unfolding allocate div_ceil scan_items scan_bits mark_items mark_bits bit_list_available_size
    bit_list_last_item_block_cnt
no_room = refl

undone : deallocate 32 1128 70 twelve₁ ≡ ok twelve
unfolding deallocate div_ceil clear_items clear_bits
undone = refl

-- Of no bytes, `required_blocks` wraps and the loop leaves the bit list.
no_bytes : deallocate 32 1000 0 twelve ≡ panic
unfolding deallocate div_ceil clear_items clear_bits
no_bytes = refl

allocate-Allocated_example : Allocated 32 70 twelve (allocate 32 70 twelve)
allocate-Allocated_example =
    allocate-Allocated 32 70 twelve twelve-IsValid (omega arith) (omega arith) (omega arith)

one_block : 3 + div_ceil 20 32 ≤ 12
unfolding div_ceil
one_block = omega arith

deallocate-Freed_example : Freed twelve 3 (div_ceil 20 32) (deallocate 32 1096 20 twelve)
deallocate-Freed_example =
    deallocate-Freed 32 20 3 twelve twelve-IsValid (omega arith) (omega arith) (omega arith)
      one_block

deallocate-allocate_example :
    IsValid 32 twelve₁
    × ((a'' : NonResidentBlockAllocator) × (deallocate 32 1128 70 twelve₁ ≡ ok a'')
        × IsValid 32 a''
        × ((j : ℕ) → used_in a'' j ≡ used_in twelve j))
deallocate-allocate_example =
    deallocate-allocate 32 twelve twelve-IsValid (omega arith) 70 1128 twelve₁ (omega arith)
      (omega arith) first

allocate-allocate_apart_example :
    ((1128 + 70 ≤ 1288) ⊎ (1288 + 40 ≤ 1128))
    × (1000 ≤ 1128)
    × (1128 + 70 ≤ 1000 + 384)
    × (1000 ≤ 1288)
    × (1288 + 40 ≤ 1000 + 384)
allocate-allocate_apart_example =
    allocate-allocate_apart 32 twelve twelve-IsValid (omega arith) 70 40 1128 1288 twelve₁ twelve₂
      (omega arith) (omega arith) (omega arith) (omega arith) first second

enough_words : calc_non_resident_block_allocator_bit_list_size 32 400 ≤ 2
unfolding calc_non_resident_block_allocator_bit_list_size div_ceil
enough_words = omega arith

init-IsValid_example :
    (a' : NonResidentBlockAllocator) × (init 32 500 400 twelve ≡ ok a')
    × IsValid 32 a'
    × (a'.offset ≡ 500)
    × (block_count 32 a' ≡ 12)
    × ((j : ℕ) → used_in a' j ≡ false)
init-IsValid_example = init-IsValid 32 500 400 twelve (omega arith) (omega arith) enough_words
