-- ===== src/Dirtiness/SyncNext.antt =====
-- `SyncDirtyIter::next`: the next range of dirty blocks. A round is one bit, so one round for each
-- block and one more reach the end.
use vnv_heap.Base.{ℕ, zero, suc, Option, none, some, if◌then◌else◌, ◌==◌}
use vnv_heap.Base.Outcome.{Outcome, ok, out_of_fuel, or_panic, ◌>>=◌}
use vnv_heap.Base.Words.{add_usize, sub_usize, mul_usize}
use vnv_heap.Dirtiness.SizeInfo.{get_last_block_size}
use vnv_heap.Dirtiness.Info.{block_size}
use vnv_heap.Dirtiness.SyncIter.{SyncDirtyIter, calc_curr_offset, next_bit, advance_bit}

-- Step 1: the offset of the first bit that is set, with the iterator behind it.
unfoldable pub find_start : ℕ → SyncDirtyIter → Outcome (Option ℕ × SyncDirtyIter)
find_start zero i = out_of_fuel
find_start (suc fuel) i =
    let advanced = do
      i' ← or_panic (advance_bit i)
      let rest = find_start fuel i'
      if next_bit i == 1 then ok (some (calc_curr_offset i), i') else rest
    in if i.reached_end then ok (none, i) else advanced

-- Step 2: over the bits that are set.
unfoldable pub skip_dirty : ℕ → SyncDirtyIter → Outcome SyncDirtyIter
skip_dirty zero i = out_of_fuel
skip_dirty (suc fuel) i =
    let advanced = do i' ← or_panic (advance_bit i); skip_dirty fuel i'
    in if i.reached_end then ok i else if next_bit i == 0 then ok i else advanced

-- Step 3: the end offset.
unfoldable pub end_offset : SyncDirtyIter → ℕ
end_offset i =
    if i.reached_end
    then add_usize
        (mul_usize (sub_usize (add_usize (mul_usize i.curr_byte_id 8) i.curr_bit_id) 1) block_size)
        (get_last_block_size i.wrapper_data.size_info_cache)
    else calc_curr_offset i

unfoldable pub next : ℕ → SyncDirtyIter → Outcome (Option (ℕ × ℕ) × SyncDirtyIter)
next fuel i =
    let found = do
      (start, i₁) ← find_start fuel i
      elim start [
        | none ↦ ok (none, i₁)
        | some o ↦ do i₂ ← skip_dirty fuel i₁; ok (some (o, end_offset i₂), i₂)
      ]
    in if i.reached_end then ok (none, i) else found
