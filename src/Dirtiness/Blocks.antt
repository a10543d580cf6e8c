-- ===== src/Dirtiness/Blocks.antt =====
-- The bit list as a set of dirty blocks, and one update as a change to that set.
use vnv_heap.Base.{
  ℕ, ◌+◌, ◌-◌, ◌*◌, ◌/◌, ◌%◌, ◌^◌, ◌≤◌, ◌<◌, ◌≡◌, refl, Bool, true, false, some, bit_and, bit_or,
  arith, if◌then◌else◌, ◌==◌, length, get_or, set, All, length-set, All-set, All-get_or,
  get_elem?-eq-get_or, get_or-set_self, get_or-set_ne,
}
use native.Mathlib.Decide.{ℕ_discrete}
use vnv_heap.Base.Bits.{bit, set_bit-lt, clear_bit-lt, bit-set_bit, bit-clear_bit, mask-bit}
use vnv_heap.Dirtiness.SizeInfo.{get_last_byte_bit_cnt, get_last_block_size}
use vnv_heap.Dirtiness.Info.{block_size}
use vnv_heap.Dirtiness.Wrapper.{Wrapper, size_at, check_dirty_status_in_block, update_block_dirty}

abbrev pub IsByte : ℕ → Type 0
IsByte b = b < 256

-- A wrapper whose bytes are bytes and whose size information is one that `new` builds.
pub record IsValid (w : Wrapper) : Type 0 where
  pub bytes : All IsByte w.data_range
  pub some_byte : 1 ≤ length w.data_range
  pub few_bytes : length w.data_range ≤ 255
  pub bits_lo : 1 ≤ get_last_byte_bit_cnt w.size_info_cache
  pub bits_hi : get_last_byte_bit_cnt w.size_info_cache ≤ 8
  pub last_hi : get_last_block_size w.size_info_cache ≤ block_size

abbrev pub dirty_block : Wrapper → ℕ → Bool
dirty_block w k = bit (get_or w.data_range (k / 8) 0) (k % 8)

abbrev pub bytes_of_block : Wrapper → ℕ → ℕ
bytes_of_block w k = size_at w (k / 8) (k % 8)

-- How many blocks the object has.
abbrev pub block_count : Wrapper → ℕ
block_count w = (length w.data_range - 1) * 8 + get_last_byte_bit_cnt w.size_info_cache

module _ {w : Wrapper} (v : IsValid w) where
  item-IsByte : (i : ℕ) → IsByte (get_or w.data_range i 0)
  item-IsByte i = All-get_or IsByte w.data_range i 0 (omega arith) v.bytes

  -- What the status of one block contributes to a sum over blocks of status `dirty`.
  pub check-block :
      (addr : ℕ) (dirty : Bool)
      → addr / block_size / 8 < length w.data_range
      → let k = addr / block_size in
        check_dirty_status_in_block w addr dirty
        ≡ some (
            if dirty
            then (if dirty_block w k then bytes_of_block w k else 0)
            else (if dirty_block w k then 0 else bytes_of_block w k))
  unfolding check_dirty_status_in_block
  check-block addr dirty h =
      let k : ℕ = addr / block_size in
      rw
        (
          get_elem?-eq-get_or w.data_range (k / 8) 0 h,
          mask-bit (get_or w.data_range (k / 8) 0) (k % 8) (item-IsByte (k / 8)) (omega arith),
        )
        (ground arith)

-- The wrapper after one block's bit is written.
abbrev pub write_block : Wrapper → ℕ → Bool → Wrapper
write_block w k dirty =
    let item = get_or w.data_range (k / 8) 0 in
    record w {
      data_range =
          set w.data_range (k / 8)
            (if dirty then bit_or item (2 ^ (k % 8)) else bit_and item (255 - 2 ^ (k % 8)));
    }

module _ {w : Wrapper} (v : IsValid w) where
  pub update-write :
      (addr : ℕ) (dirty : Bool)
      → addr / block_size / 8 < length w.data_range
      → update_block_dirty w addr dirty ≡ some (write_block w (addr / block_size) dirty)
  unfolding update_block_dirty
  update-write addr dirty h = rw (get_elem?-eq-get_or w.data_range (addr / block_size / 8) 0 h) refl

  written-IsByte :
      (k : ℕ) (dirty : Bool)
      → let item = get_or w.data_range (k / 8) 0 in
        IsByte (if dirty then bit_or item (2 ^ (k % 8)) else bit_and item (255 - 2 ^ (k % 8)))
  written-IsByte k true = set_bit-lt _ (k % 8) (item-IsByte v (k / 8)) (omega arith)
  written-IsByte k false = clear_bit-lt _ (k % 8) (item-IsByte v (k / 8)) (omega arith)

  pub write_block-IsValid : (k : ℕ) (dirty : Bool) → IsValid (write_block w k dirty)
  write_block-IsValid k dirty = record {
    bytes = All-set IsByte w.data_range (k / 8) _ (written-IsByte k dirty) v.bytes;
    some_byte = rw length-set v.some_byte;
    few_bytes = rw length-set v.few_bytes;
    bits_lo = v.bits_lo;
    bits_hi = v.bits_hi;
    last_hi = v.last_hi;
  }

  written_bit :
      (k j : ℕ) (dirty : Bool)
      → j < 8
      → let item = get_or w.data_range (k / 8) 0 in
        bit (if dirty then bit_or item (2 ^ (k % 8)) else bit_and item (255 - 2 ^ (k % 8))) j
        ≡ (if k % 8 == j then dirty else bit item j)
  written_bit k j true h = bit-set_bit _ (k % 8) j (item-IsByte v (k / 8)) (omega arith) h
  written_bit k j false h = bit-clear_bit _ (k % 8) j (item-IsByte v (k / 8)) (omega arith) h

  -- Writing block `k` changes the status of that block only.
  pub dirty_block-write :
      (k j : ℕ) (dirty : Bool)
      → k / 8 < length w.data_range
      → dirty_block (write_block w k dirty) j ≡ (if k == j then dirty else dirty_block w j)
  dirty_block-write k j dirty h = elim (ℕ_discrete (k / 8) (j / 8)) [
    | yes e ↦
        rw
          (
            ← e,
            get_or-set_self w.data_range (k / 8) _ 0 h,
            written_bit k (j % 8) dirty (omega arith),
          )
          (ground arith)
    | no ne ↦ rw (get_or-set_ne w.data_range _ 0 ne) (ground arith)
  ]

  pub bytes_of_block-write :
      (k j : ℕ) (dirty : Bool) → bytes_of_block (write_block w k dirty) j ≡ bytes_of_block w j
  bytes_of_block-write k j dirty = rw length-set refl

-- The bit that is tested for the last block is the one of block `block_count - 1`.
pub bytes_of_block_lem :
    {w : Wrapper} (k : ℕ)
    → IsValid w
    → bytes_of_block w k
      ≡ (if k + 1 == block_count w then get_last_block_size w.size_info_cache else block_size)
bytes_of_block_lem k v = ground arith
