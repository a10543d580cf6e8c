-- ===== src/Block/Rounds.antt =====
-- The outer loop of the search: it reads each word of the blocks in use once, inside the bit list.
use native.Mathlib.Decide.{ℕ_discrete}
use vnv_heap.Base.{
  ℕ, zero, suc, ◌+◌, ◌*◌, ◌/◌, ◌%◌, ◌≤◌, ◌<◌, ◌≡◌, refl, Bool, true, false, arith, if◌then◌else◌,
  ◌==◌, All, length, get_or, get_elem?-eq-get_or,
}
use vnv_heap.Base.Bits.{bit}
use vnv_heap.Base.Outcome.{Outcome, ok}
use vnv_heap.Base.Words.{usize_mod, usize_size, sub_usize}
use vnv_heap.Util.{div_ceil_bounds}
use vnv_heap.Block.Allocator.{
  NonResidentBlockAllocator, Search, scan_items, bit_list_last_item_block_cnt,
  bit_list_available_size,
}
use vnv_heap.Block.Used.{IsItem, used}
use vnv_heap.Block.Scan.{Searching, Found, ScanResult, running, broke, scan_bits-lem}

-- How many blocks the allocator manages.
abbrev pub block_count : ℕ → NonResidentBlockAllocator → ℕ
block_count block_size a = a.size / block_size

-- The words hold bytes, and there are enough of them for the managed blocks.
pub record IsValid (block_size : ℕ) (a : NonResidentBlockAllocator) : Type 0 where
  pub items : All IsItem a.bit_list
  pub small : block_count block_size a + 8 < usize_mod
  pub enough : block_count block_size a ≤ length a.bit_list * 8
  pub positive : 0 < block_size

module _ (block_size : ℕ) (a : NonResidentBlockAllocator) (v : IsValid block_size a)
    (required : ℕ) where
  abbrev total : ℕ
  total = block_count block_size a

  abbrev words : ℕ
  words = bit_list_available_size block_size a.size

  abbrev u : ℕ → Bool
  u = used a.bit_list

  pub words-bounds : (total ≤ words * 8) × (words * 8 < total + 8)
  unfolding bit_list_available_size
  words-bounds = div_ceil_bounds total 8 (omega arith) v.small

  -- The number of bits that the loop reads of word `list_index`.
  abbrev end_of : ℕ → ℕ
  end_of list_index =
      if list_index == sub_usize words 1
      then bit_list_last_item_block_cnt block_size a.size
      else usize_size

  end_of-last :
      (list_index : ℕ) → list_index + 1 ≡ words → list_index * 8 + end_of list_index ≡ total
  unfolding bit_list_last_item_block_cnt
  end_of-last list_index e =
      let b = words-bounds in
      let s = v.small in
      let t : (list_index == sub_usize words 1) ≡ true = ground arith in rw t (ground arith)

  end_of-inner : (list_index : ℕ) → list_index + 1 < words → end_of list_index ≡ 8
  end_of-inner list_index lt =
      let b = words-bounds in
      let s = v.small in
      let t : (list_index == sub_usize words 1) ≡ false = ground arith in rw t refl

  end_of-le : (list_index : ℕ) → end_of list_index ≤ 8
  unfolding bit_list_last_item_block_cnt
  end_of-le list_index = ground arith

  -- The search has ended: it found the first run, or there is none.
  pub data Ended : Outcome Search → Type 0 where
    exhausted : {s : Search} → Searching u required total s → Ended (ok s)
    found : {s : Search} → Found u required total s → Ended (ok s)

  word_bits :
      (list_index : ℕ)
      → (j : ℕ) → j < 8
      → bit (get_or a.bit_list list_index 0) j ≡ u (list_index * 8 + j)
  word_bits list_index j h =
      let d : (list_index * 8 + j) / 8 ≡ list_index = omega arith in
      let m : (list_index * 8 + j) % 8 ≡ j = omega arith in rw (d, m) refl

  finish :
      (n list_index : ℕ) (r : Search × Bool)
      → ScanResult u required (list_index * 8 + end_of list_index) total r
      → list_index + suc n ≡ words
      → ((s : Search)
          → (0 < n → Searching u required ((list_index + 1) * 8) s)
          → (n ≡ 0 → Searching u required total s)
          → Ended (scan_items block_size a required words n (list_index + 1) s))
      → Ended (
          let rest = scan_items block_size a required words n (list_index + 1) r.0 in
          if r.1 then ok r.0 else rest)
  finish n list_index (s, false) (running h) e go =
      go s
        (λ pos.
          let i = end_of-inner list_index (omega arith) in
          let k : list_index * 8 + end_of list_index ≡ (list_index + 1) * 8 = omega arith in
          rw k at h)
        (λ z. let k = end_of-last list_index (omega arith) in rw k at h)
  finish n list_index (s, true) (broke h) e go = found h

  -- From word `list_index` on, with `n` words left, the search ends.
  pub scan_items-Ended :
      (n list_index : ℕ) (s : Search)
      → list_index + n ≡ words
      → (0 < n → Searching u required (list_index * 8) s)
      → (n ≡ 0 → Searching u required total s)
      → Ended (scan_items block_size a required words n list_index s)
  unfolding scan_items
  scan_items-Ended zero list_index s e inner done = exhausted (done refl)
  scan_items-Ended (suc n) list_index s e inner done =
      rw (get_elem?-eq-get_or a.bit_list list_index 0 here) (
        finish n list_index _
          (scan_bits-lem u required list_index (end_of list_index) 0
            (get_or a.bit_list list_index 0) (list_index * 8) total s (inner (omega arith))
            (omega arith) (omega (arith, end_of-le list_index)) bound
            (λ j lt. word_bits list_index j (omega (arith, end_of-le list_index))))
          e (λ s' i d. scan_items-Ended n (list_index + 1) s' (omega arith) i d))
    where
      here : list_index < length a.bit_list
      here = omega (arith, words-bounds, v.enough)

      bound : list_index * 8 + end_of list_index ≤ total
      bound = elim (ℕ_discrete n 0) [
        | yes z ↦ omega (arith, end_of-last list_index (omega arith))
        | no nz ↦ omega (arith, end_of-inner list_index (omega arith), words-bounds)
      ]
