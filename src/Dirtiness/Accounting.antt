-- ===== src/Dirtiness/Accounting.antt =====
-- What `set_range_dirty` does to the set of dirty blocks and to the dirty size: the sums on which
-- `remaining_dirty_size` of the resident object manager relies.
use vnv_heap.Base.{
  ℕ, zero, suc, ◌+◌, ◌-◌, ◌*◌, ◌/◌, ◌%◌, ◌≤◌, ◌<◌, ◌≡◌, ◌≢◌, refl, ap, ◌∙◌, Bool, true, false, ◌&&◌,
  some, arith, if◌then◌else◌, ltb, leb, length, length-set,
}
use vnv_heap.Base.Sums.{sum_range, sum_range-congr, sum_range-change, sum_range-const}
use vnv_heap.Base.Words.{usize_mod}
use vnv_heap.Util.{div_ceil}
use vnv_heap.Dirtiness.Info.{block_size}
use vnv_heap.Dirtiness.Wrapper.{
  Wrapper, calc_dirty_size, update_range_dirty, set_range_dirty, get_non_dirty_size_in_range,
}
use vnv_heap.Dirtiness.Blocks.{
  IsValid, dirty_block, bytes_of_block, write_block, write_block-IsValid, dirty_block-write,
  bytes_of_block-write,
}
use vnv_heap.Dirtiness.Size.{dirty_bytes, calc_dirty_size-sum}
use vnv_heap.Dirtiness.Range.{
  status_bytes, InRange, get_dirty_status_in_range-sum, write_blocks, update_loop-write,
}

length-write_blocks :
    (w : Wrapper) (k n : ℕ) (dirty : Bool)
    → length (write_blocks w k n dirty).data_range ≡ length w.data_range
unfolding write_blocks
length-write_blocks w k zero dirty = refl
length-write_blocks w k (suc n) dirty =
    length-write_blocks (write_block w k dirty) (k + 1) n dirty ∙ length-set _ _ _

write_blocks-IsValid :
    {w : Wrapper} (k n : ℕ) (dirty : Bool) → IsValid w → IsValid (write_blocks w k n dirty)
unfolding write_blocks
write_blocks-IsValid k zero dirty v = v
write_blocks-IsValid {w} k (suc n) dirty v =
    write_blocks-IsValid {w = write_block w k dirty} (k + 1) n dirty (write_block-IsValid v k dirty)

dirty_block-write_blocks :
    {w : Wrapper} (k n j : ℕ) (dirty : Bool)
    → IsValid w
    → k + n ≤ length w.data_range * 8
    → dirty_block (write_blocks w k n dirty) j
      ≡ (if leb k j && ltb j (k + n) then dirty else dirty_block w j)
unfolding write_blocks
dirty_block-write_blocks k zero j dirty v h = ground arith
dirty_block-write_blocks {w} k (suc n) j dirty v h =
    dirty_block-write_blocks {w = write_block w k dirty} (k + 1) n j dirty
      (write_block-IsValid v k dirty) (rw length-set (omega arith))
    ∙ rw (dirty_block-write v k j dirty (omega arith)) (ground arith)

-- One block that turns dirty adds its bytes, if it was not dirty before.
sum-write_block :
    {w : Wrapper} (k total : ℕ)
    → IsValid w
    → k < total
    → k < length w.data_range * 8
    → sum_range (dirty_bytes (write_block w k true)) 0 total
      ≡ sum_range (dirty_bytes w) 0 total + status_bytes w false k
sum-write_block {w} k total v h inside =
    let change =
      sum_range-change (dirty_bytes (write_block w k true)) (dirty_bytes w) k 0 total other
        (omega arith) (omega arith) in
    ground (arith, change, self)
  where
    other : (j : ℕ) → j ≢ k → dirty_bytes (write_block w k true) j ≡ dirty_bytes w j
    other j ne =
        rw (dirty_block-write v k j true (omega arith), bytes_of_block-write v k j true)
          (ground arith)

    self : dirty_bytes (write_block w k true) k ≡ bytes_of_block w k
    self =
        rw (dirty_block-write v k k true (omega arith), bytes_of_block-write v k k true)
          (ground arith)

sum-write_blocks :
    {w : Wrapper} (k n total : ℕ)
    → IsValid w
    → k + n ≤ total
    → k + n ≤ length w.data_range * 8
    → sum_range (dirty_bytes (write_blocks w k n true)) 0 total
      ≡ sum_range (dirty_bytes w) 0 total + sum_range (status_bytes w false) k n
unfolding write_blocks sum_range
sum-write_blocks k zero total v h inside = omega arith
sum-write_blocks {w} k (suc n) total v h inside = omega (
  arith,
  sum-write_blocks {w = write_block w k true} (k + 1) n total (write_block-IsValid v k true)
      (omega arith) (rw length-set (omega arith)),
  sum-write_block k total v (omega arith) (omega arith),
  rest,
)
  where
    rest :
        sum_range (status_bytes (write_block w k true) false) (k + 1) n
        ≡ sum_range (status_bytes w false) (k + 1) n
    rest = sum_range-congr _ _ (k + 1) n λ j lo hi.
        rw (dirty_block-write v k j true (omega arith), bytes_of_block-write v k j true)
          (ground arith)

-- The loop writes the blocks that it counts from the one of `addr` on.
update_range_dirty-counted :
    {w : Wrapper} (addr size : ℕ) (dirty : Bool)
    → IsValid w
    → InRange w addr (div_ceil size block_size)
    → (w' : Wrapper) × (update_range_dirty w addr size dirty ≡ some w')
      × IsValid w'
      × ((j : ℕ)
          → dirty_block w' j ≡ (
              if leb (addr / block_size) j && ltb j (addr / block_size + div_ceil size block_size)
              then dirty
              else dirty_block w j))
unfolding update_range_dirty
update_range_dirty-counted {w} addr size dirty v inside =
    let z : addr / block_size + 0 ≡ addr / block_size = omega arith in
    let n : ℕ = div_ceil size block_size in
    let k : ℕ = addr / block_size in
    (
      write_blocks w k n dirty,
      update_loop-write addr dirty n 0 v (omega arith) ∙ rw z refl,
      write_blocks-IsValid k n dirty v,
      λ j. dirty_block-write_blocks k n j dirty v inside,
    )

-- The rounds of the loops.
rounds :
    (size : ℕ) → size + block_size < usize_mod → div_ceil size block_size ≡ (size + 63) / block_size
unfolding div_ceil
rounds size fits = omega (arith, fits)

-- Does a byte of the range lie in block `j`?
abbrev pub touches : ℕ → ℕ → ℕ → Bool
touches addr size j = ltb (j * block_size) (addr + size) && ltb addr ((j + 1) * block_size)

-- On a valid wrapper, for a range of tracked bytes that starts at a block: `update_range_dirty`
-- does not leave the bit list, gives exactly the blocks in which a byte of the range lies the
-- status that it is called with, and leaves the status of every other block.
pub update_range_dirty-blocks :
    {w : Wrapper} (addr size : ℕ) (dirty : Bool)
    → IsValid w
    → addr % block_size ≡ 0
    → addr + size ≤ length w.data_range * 8 * block_size
    → (w' : Wrapper) × (update_range_dirty w addr size dirty ≡ some w')
      × IsValid w'
      × ((j : ℕ) → dirty_block w' j ≡ (if touches addr size j then dirty else dirty_block w j))
update_range_dirty-blocks {w} addr size dirty v aligned inside =
    let n = rounds size (omega (arith, inside, v.few_bytes)) in
    let c = update_range_dirty-counted addr size dirty v (omega (arith, n, inside, aligned)) in
    (
      c.0,
      c.1,
      c.2,
      λ j.
          let same : (leb (addr / block_size) j
                && ltb j (addr / block_size + div_ceil size block_size))
              ≡ touches addr size j =
            ground (arith, n, aligned) in
          c.3 j ∙ rw same refl,
    )

-- On a valid wrapper, for a range of tracked bytes that reaches, from the start of its first
-- block, over more bytes than the blocks have that its size rounds up to: the last byte of the
-- range lies in a block whose status `set_range_dirty` leaves as it was.
pub set_range_dirty-missed :
    {w : Wrapper} (addr size : ℕ)
    → IsValid w
    → addr + size ≤ length w.data_range * 8 * block_size
    → div_ceil size block_size * block_size < addr % block_size + size
    → (w' : Wrapper) × (set_range_dirty w addr size ≡ some w')
      × (touches addr size ((addr + size - 1) / block_size) ≡ true)
      × (dirty_block w' ((addr + size - 1) / block_size)
          ≡ dirty_block w ((addr + size - 1) / block_size))
set_range_dirty-missed {w} addr size v inside crosses =
    let n = rounds size (omega (arith, inside, v.few_bytes)) in
    let c = update_range_dirty-counted addr size true v (omega (arith, n, inside)) in
    let last : ℕ = (addr + size - 1) / block_size in
    let behind : (leb (addr / block_size) last
          && ltb last (addr / block_size + div_ceil size block_size))
        ≡ false =
      ground (arith, n, crosses) in
    (c.0, c.1, ground (arith, n, crosses), c.3 last ∙ rw behind refl)

-- The accounting of `partial_mut_make_range_dirty`: on a valid wrapper, where the blocks that
-- the loops count, as many as the size has, rounded up, from the block of the address on, are
-- tracked: `get_non_dirty_size_in_range` gives the number of bytes by which `set_range_dirty`
-- then raises the dirty size of the object, and after it `get_non_dirty_size_in_range` gives 0
-- for the same range.
pub set_range_dirty-size :
    {w : Wrapper} (addr size : ℕ)
    → IsValid w
    → InRange w addr (div_ceil size block_size)
    → (w' : Wrapper) × (bytes : ℕ) × (get_non_dirty_size_in_range w addr size ≡ some bytes)
      × (set_range_dirty w addr size ≡ some w')
      × (calc_dirty_size w' ≡ calc_dirty_size w + bytes)
      × (get_non_dirty_size_in_range w' addr size ≡ some 0)
unfolding update_range_dirty
set_range_dirty-size {w} addr size v inside = (w', bytes, read, write, sums, nothing_left)
  where
    k : ℕ
    k = addr / block_size

    n : ℕ
    n = div_ceil size block_size

    w' : Wrapper
    w' = write_blocks w k n true

    v' : IsValid w'
    v' = write_blocks-IsValid k n true v

    bytes : ℕ
    bytes = sum_range (status_bytes w false) k n

    read : get_non_dirty_size_in_range w addr size ≡ some bytes
    read = get_dirty_status_in_range-sum addr size false v inside

    write : set_range_dirty w addr size ≡ some w'
    write =
        let z : addr / block_size + 0 ≡ addr / block_size = omega arith in
        update_loop-write addr true n 0 v (omega arith) ∙ rw z refl

    sums : calc_dirty_size w' ≡ calc_dirty_size w + bytes
    sums =
        rw (calc_dirty_size-sum w v, calc_dirty_size-sum w' v', length-write_blocks w k n true)
          (sum-write_blocks k n (length w.data_range * 8) v inside inside)

    nothing_left : get_non_dirty_size_in_range w' addr size ≡ some 0
    nothing_left =
        get_dirty_status_in_range-sum addr size false v' (rw length-write_blocks inside)
        ∙ ap some (
            sum_range-const (status_bytes w' false) 0 k n
              (λ j lo hi. rw (dirty_block-write_blocks k n j true v inside) (ground arith))
            ∙ omega arith)
