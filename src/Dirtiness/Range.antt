-- ===== src/Dirtiness/Range.antt =====
-- Reading and writing the status of a range of blocks, and the accounting of dirty bytes.
use vnv_heap.Base.{
  ℕ, zero, suc, ◌+◌, ◌*◌, ◌/◌, ◌%◌, ◌≤◌, ◌<◌, ◌≡◌, refl, ap, ◌∙◌, Bool, some, arith, if◌then◌else◌,
  length, length-set,
}
use vnv_heap.Base.Words.{usize_mod, add_usize, mul_usize}
use vnv_heap.Base.Sums.{sum_range}
use vnv_heap.Util.{div_ceil}
use vnv_heap.Dirtiness.Info.{block_size}
use vnv_heap.Dirtiness.Wrapper.{Wrapper, status_loop, get_dirty_status_in_range, update_loop}
use vnv_heap.Dirtiness.Blocks.{
  IsValid, dirty_block, bytes_of_block, check-block, write_block, update-write, write_block-IsValid,
}
use vnv_heap.Dirtiness.Size.{size_at-le}

-- What block `k` contributes to a sum over the blocks of status `dirty`.
abbrev pub status_bytes : Wrapper → Bool → ℕ → ℕ
status_bytes w dirty k =
    if dirty
    then (if dirty_block w k then bytes_of_block w k else 0)
    else (if dirty_block w k then 0 else bytes_of_block w k)

-- The `n` blocks from the one at `addr_offset` on are tracked by the bit list.
abbrev pub InRange : Wrapper → ℕ → ℕ → Type 0
InRange w addr_offset n = addr_offset / block_size + n ≤ length w.data_range * 8

round_block :
    (addr i : ℕ)
    → addr / block_size + i < 2048
    → add_usize addr (mul_usize i block_size) / block_size ≡ addr / block_size + i
round_block addr i h = omega arith

status_loop-sum :
    {w : Wrapper} (addr : ℕ) (dirty : Bool)
    → IsValid w
    → (n i res : ℕ) → addr / block_size + i + n ≤ length w.data_range * 8
    → res + n * block_size < usize_mod
    → status_loop w addr dirty n i res
      ≡ some (res + sum_range (status_bytes w dirty) (addr / block_size + i) n)
unfolding status_loop sum_range
status_loop-sum addr dirty v zero i res inside fits = ap some (omega arith)
status_loop-sum {w} addr dirty v (suc n) i res inside fits =
    rw (check-block v (add_usize addr (mul_usize i block_size)) dirty here, block)
      (status_loop-sum addr dirty v n (i + 1) next next_inside next_fits ∙ ap some total)
  where
    block : add_usize addr (mul_usize i block_size) / block_size ≡ addr / block_size + i
    block = round_block addr i (omega (arith, v.few_bytes))

    here : add_usize addr (mul_usize i block_size) / block_size / 8 < length w.data_range
    here = omega (arith, block)

    next : ℕ
    next = add_usize res (status_bytes w dirty (addr / block_size + i))

    le : status_bytes w dirty (addr / block_size + i) ≤ block_size
    le = ground (arith, size_at-le ((addr / block_size + i) / 8) ((addr / block_size + i) % 8) v)

    next-eq : next ≡ res + status_bytes w dirty (addr / block_size + i)
    next-eq = omega (arith, le)

    next_inside : addr / block_size + (i + 1) + n ≤ length w.data_range * 8
    next_inside = omega arith

    next_fits : next + n * block_size < usize_mod
    next_fits = omega (arith, le)

    total :
        next + sum_range (status_bytes w dirty) (addr / block_size + (i + 1)) n
        ≡ res
          + (status_bytes w dirty (addr / block_size + i)
              + sum_range (status_bytes w dirty) (addr / block_size + i + 1) n)
    total =
        let e : addr / block_size + (i + 1) ≡ addr / block_size + i + 1 = omega arith in
        rw e (omega (arith, next-eq))

-- On a valid wrapper, for a range of tracked blocks, the loop reads inside the bit list and adds
-- up their bytes.
pub get_dirty_status_in_range-sum :
    {w : Wrapper} (addr size : ℕ) (dirty : Bool)
    → IsValid w
    → InRange w addr (div_ceil size block_size)
    → get_dirty_status_in_range w addr size dirty
      ≡ some (sum_range (status_bytes w dirty) (addr / block_size) (div_ceil size block_size))
unfolding get_dirty_status_in_range
get_dirty_status_in_range-sum {w} addr size dirty v inside =
    let z : addr / block_size + 0 ≡ addr / block_size = omega arith in
    status_loop-sum addr dirty v (div_ceil size block_size) 0 0 (omega arith)
      (omega (arith, v.few_bytes))
    ∙ rw z (ap some (omega arith))

-- The blocks `k` to `k + n` written one after the other.
unfoldable pub write_blocks : Wrapper → ℕ → ℕ → Bool → Wrapper
write_blocks w k zero dirty = w
write_blocks w k (suc n) dirty = write_blocks (write_block w k dirty) (k + 1) n dirty

pub update_loop-write :
    (addr : ℕ) (dirty : Bool) (n i : ℕ) {w : Wrapper}
    → IsValid w
    → addr / block_size + i + n ≤ length w.data_range * 8
    → update_loop w addr dirty n i ≡ some (write_blocks w (addr / block_size + i) n dirty)
unfolding update_loop write_blocks
update_loop-write addr dirty zero i v inside = refl
update_loop-write addr dirty (suc n) i {w} v inside =
    rw (update-write v (add_usize addr (mul_usize i block_size)) dirty here, block)
      (update_loop-write addr dirty n (i + 1) (write_block-IsValid v (addr / block_size + i) dirty)
          (rw length-set (omega arith))
        ∙ assoc)
  where
    block : add_usize addr (mul_usize i block_size) / block_size ≡ addr / block_size + i
    block = round_block addr i (omega (arith, v.few_bytes))

    here : add_usize addr (mul_usize i block_size) / block_size / 8 < length w.data_range
    here = omega (arith, block)

    w' : Wrapper
    w' = write_block w (addr / block_size + i) dirty

    assoc :
        some (write_blocks w' (addr / block_size + (i + 1)) n dirty)
        ≡ some (write_blocks w' (addr / block_size + i + 1) n dirty)
    assoc =
        let e : addr / block_size + (i + 1) ≡ addr / block_size + i + 1 = omega arith in rw e refl
