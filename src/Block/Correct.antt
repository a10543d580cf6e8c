-- ===== src/Block/Correct.antt =====
-- What the block allocator promises: `init`, `allocate` and `deallocate` on the set of used blocks.
use native.Mathlib.Decide.{ℕ_discrete}
use vnv_heap.Base.{
  ℕ, zero, suc, ◌+◌, ◌-◌, ◌*◌, ◌/◌, ◌%◌, ◌≤◌, ◌<◌, ◌≡◌, refl, ap, Bool, true, false, List, arith,
  if◌then◌else◌, ◌==◌,
}
use vnv_heap.Base.Outcome.{Outcome, ok, err, ◌>>=◌}
use vnv_heap.Base.Words.{usize_mod, add_usize, mul_usize}
use vnv_heap.Util.{div_ceil, div_ceil_bounds}
use vnv_heap.Block.Allocator.{
  NonResidentBlockAllocator, Search, scan_items, mark_items, allocate, bit_list_available_size,
}
use vnv_heap.Block.Used.{used, AllFree, Changed}
use vnv_heap.Block.Scan.{Searching, Found}
use vnv_heap.Block.Rounds.{
  block_count, IsValid, Ended, exhausted, found, scan_items-Ended, words-bounds,
}
use vnv_heap.Block.Mark.{Changes, changes, mark_items-Changes}

abbrev pub used_in : NonResidentBlockAllocator → ℕ → Bool
used_in a = used a.bit_list

-- How many blocks a layout takes.
abbrev pub blocks_of : ℕ → ℕ → ℕ
blocks_of block_size size = div_ceil size block_size

-- The result of `allocate`: the first run of enough free blocks, marked as used, or `Err(())` where
-- there is no such run.
pub data Allocated (block_size size : ℕ) (a : NonResidentBlockAllocator)
    : Outcome (ℕ × NonResidentBlockAllocator) → Type 0 where
  placed :
      (k : ℕ) {a' : NonResidentBlockAllocator}
      → k + blocks_of block_size size ≤ block_count block_size a
      → AllFree (used_in a) k (blocks_of block_size size)
      → ((p : ℕ) → p < k → ¬ AllFree (used_in a) p (blocks_of block_size size))
      → Changed true a.bit_list a'.bit_list k (blocks_of block_size size)
      → a'.offset ≡ a.offset
      → a'.size ≡ a.size
      → Allocated block_size size a (ok (a.offset + k * block_size, a'))
  no_space :
      ((p : ℕ)
        → p + blocks_of block_size size ≤ block_count block_size a
        → ¬ AllFree (used_in a) p (blocks_of block_size size))
      → Allocated block_size size a err

pub le-mul : (q b : ℕ) → 0 < b → q ≤ q * b
le-mul q b h = grind arith

pub mul_mono : (a b c : ℕ) → a ≤ b → a * c ≤ b * c
mul_mono a b c h = grind arith

pub div_mul-le : (a b : ℕ) → a / b * b ≤ a
div_mul-le a b = grind arith

-- A layout of at least one byte takes at least one block.
pub blocks_of_pos :
    (block_size size : ℕ)
    → 0 < block_size
    → 0 < size
    → size + block_size < usize_mod
    → (0 < blocks_of block_size size) × (blocks_of block_size size < usize_mod)
blocks_of_pos block_size size pos some_bytes fits =
    let b = div_ceil_bounds size block_size pos fits in
    (
      (elim (ℕ_discrete (div_ceil size block_size) 0) [
        | yes z ↦ absurd (let q = rw z at (b.0) in omega arith)
        | no nz ↦ omega arith
      ]),
      omega (arith, le-mul (div_ceil size block_size) block_size pos),
    )

-- The offset that `allocate` computes from the word and the bit of the first block.
rel_offset :
    (offset word i k block_size : ℕ)
    → k ≡ word * 8 + i
    → offset + k * block_size < usize_mod
    → add_usize offset
        (add_usize (mul_usize word (mul_usize 8 block_size)) (mul_usize i block_size))
      ≡ offset + k * block_size
rel_offset offset zero i k block_size e fits =
    let o : k ≡ i = omega arith in rw o (omega (arith, ap (λ (t : ℕ). t * block_size) o))
rel_offset offset (suc word) i k block_size e fits =
    let p : k * block_size ≡ (suc word * 8 + i) * block_size = ap (λ (t : ℕ). t * block_size) e in
    let h : 8 * block_size % usize_mod ≡ 8 * block_size = omega arith in rw h (omega arith)

module _ (block_size size : ℕ) (a : NonResidentBlockAllocator) (v : IsValid block_size a)
    (some_bytes : 0 < size) (fits : size + block_size < usize_mod)
    (region : a.offset + a.size < usize_mod) where
  abbrev n : ℕ
  n = blocks_of block_size size

  abbrev finish : Search → Outcome (ℕ × NonResidentBlockAllocator)
  finish s =
      let marked : Outcome (ℕ × NonResidentBlockAllocator) = (do
        bit_list ←
            mark_items s (s.list_index_end + 1 - s.list_index_start) s.list_index_start a.bit_list
        let rel =
            add_usize (mul_usize s.list_index_start (mul_usize 8 block_size))
              (mul_usize s.bit_index_start block_size)
        ok (add_usize a.offset rel, record a { bit_list = bit_list })) in
      if s.matched_block_cnt == n then marked else err

  n-bounds : (0 < n) × (n < usize_mod)
  n-bounds = blocks_of_pos block_size size v.positive some_bytes fits

  finish-Found :
      (s : Search)
      → Found (used_in a) n (block_count block_size a) s
      → Allocated block_size size a (finish s)
  finish-Found s f =
      let full : (s.matched_block_cnt == n) ≡ true = ground (arith, f.matched) in
      rw full (go _ marked)
    where
      k : ℕ
      k = s.list_index_start * 8 + s.bit_index_start

      inside : k + n ≤ block_count block_size a
      inside = omega (arith, f.ends, f.inside)

      rounds :
          s.list_index_end + 1 - s.list_index_start ≡ suc (s.list_index_end - s.list_index_start)
      rounds = omega (arith, f.ends, f.in_word, n-bounds)

      marked :
          Changes true a.bit_list k n
            (mark_items s (s.list_index_end + 1 - s.list_index_start) s.list_index_start a.bit_list)
      marked = rw rounds (
          mark_items-Changes s (s.list_index_end - s.list_index_start) s.list_index_start k n
            a.bit_list f.in_word.1 (omega (arith, f.in_word)) (ground arith) (omega arith)
            (omega (arith, rounds)) (omega (arith, f.ends)) n-bounds.0 v.items
            (omega (arith, f.inside, v.enough)))

      small : a.offset + k * block_size < usize_mod
      small = omega (
        arith,
        mul_mono k (block_count block_size a) block_size (omega (arith, inside)),
        div_mul-le a.size block_size,
      )

      go :
          (r : Outcome (List ℕ))
          → Changes true a.bit_list k n r
          → Allocated block_size size a (
              r >>= λ bit_list.
              let rel =
                add_usize
                  (mul_usize s.list_index_start (mul_usize 8 block_size))
                  (mul_usize s.bit_index_start block_size) in
              ok (add_usize a.offset rel, record a { bit_list = bit_list }))
      go _ (changes x) =
          rw (rel_offset a.offset s.list_index_start s.bit_index_start k block_size refl small)
            (placed k inside f.free f.first x refl refl)

  finish_none :
      (s : Search)
      → Searching (used_in a) n (block_count block_size a) s
      → Allocated block_size size a (finish s)
  finish_none s h =
      let short : (s.matched_block_cnt == n) ≡ false = ground (arith, h.lt) in
      rw short (no_space h.no_run)

  -- On a valid allocator whose region ends within `usize`, for a layout of at least one byte whose
  -- size plus one block does not overflow, `allocate` does not panic. It returns the offset of the
  -- first run of free managed blocks that the layout fits, with exactly these blocks marked as
  -- used, or `Err(())` where there is no such run.
  pub allocate-Allocated : Allocated block_size size a (allocate block_size size a)
  unfolding allocate
  allocate-Allocated = go _ ended
    where
      start : Search
      start = record {
        list_index_start = 0;
        bit_index_start = 0;
        list_index_end = 0;
        bit_index_end = 0;
        matched_block_cnt = 0;
      }

      begin : {k : ℕ} → k ≡ 0 → Searching (used_in a) n k start
      begin e = record {
        le = omega arith;
        lt = n-bounds.0;
        free = λ j lo hi. absurd (omega arith);
        start = λ q. absurd (omega arith);
        edge = λ j q. absurd (omega arith);
        no_run = λ p q. absurd (omega (arith, n-bounds));
      }

      ended : Ended block_size a v n (
          scan_items block_size a n
            (bit_list_available_size block_size a.size)
            (bit_list_available_size block_size a.size)
            0
            start)
      ended =
          scan_items-Ended block_size a v n _ 0 start (omega arith) (λ q. begin refl)
            (λ z. begin (omega (arith, z, words-bounds block_size a v n)))

      go :
          (r : Outcome Search)
          → Ended block_size a v n r
          → Allocated block_size size a (r >>= finish)
      go _ (exhausted h) = finish_none _ h
      go _ (found f) = finish-Found _ f
