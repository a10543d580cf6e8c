-- ===== src/Block/Scan.antt =====
-- The search of `allocate` finds the first run of free blocks that is long enough.
use vnv_heap.Base.{
  ℕ, zero, suc, ◌+◌, ◌-◌, ◌*◌, ◌/◌, ◌%◌, ◌≤◌, ◌<◌, ◌≡◌, ◌≢◌, ◌∙◌, Bool, true, false, not, inl, inr,
  arith, bit_and, ◌==◌, Bool-cases,
}
use native.Mathlib.Decide.{dec_le, dec_lt, ℕ_discrete}
use vnv_heap.Base.Bits.{bit}
use vnv_heap.Base.Digits.{bit_and-one}
use vnv_heap.Block.Allocator.{Search, free_block, used_block, end_block, scan_bits}
use vnv_heap.Block.Used.{AllFree}

module _ (u : ℕ → Bool) (required : ℕ) where
  -- The search before block `k`: the last `matched_block_cnt` blocks are free, and no more; they
  -- start where the locals say; and no run of `required` free blocks ends before `k`.
  pub record Searching (k : ℕ) (s : Search) : Type 0 where
    pub le : s.matched_block_cnt ≤ k
    pub lt : s.matched_block_cnt < required
    pub free : (j : ℕ) → k ≤ j + s.matched_block_cnt → j < k → u j ≡ false
    pub start :
        0 < s.matched_block_cnt
        → (s.list_index_start * 8 + s.bit_index_start + s.matched_block_cnt ≡ k)
          × (s.bit_index_start < 8)
    pub edge : (j : ℕ) → j + 1 + s.matched_block_cnt ≡ k → u j ≡ true
    pub no_run : (p : ℕ) → p + required ≤ k → ¬ AllFree u p required

  -- The search after its break: the run that the locals delimit is free, has `required` blocks, and
  -- is the first such run.
  pub record Found (total : ℕ) (s : Search) : Type 0 where
    pub matched : s.matched_block_cnt ≡ required
    pub in_word : (s.bit_index_start < 8) × (s.bit_index_end < 8)
    pub ends :
        s.list_index_end * 8 + s.bit_index_end + 1
        ≡ s.list_index_start * 8 + s.bit_index_start + required
    pub inside : s.list_index_end * 8 + s.bit_index_end < total
    pub free : AllFree u (s.list_index_start * 8 + s.bit_index_start) required
    pub first : (p : ℕ) → p < s.list_index_start * 8 + s.bit_index_start → ¬ AllFree u p required

  step-used :
      {k : ℕ} {s : Search}
      → Searching k s
      → u k ≡ true
      → 0 < required
      → Searching (k + 1) (used_block s)
  step-used {k} {s} h used_k pos = record {
    le = omega arith;
    lt = pos;
    free = λ j lo hi. absurd (omega arith);
    start = λ q. absurd (omega arith);
    edge = λ j e. let i : j ≡ k = omega arith in rw i used_k;
    no_run = λ p le free. elim (dec_le (p + required) k) [
      | yes in_k ↦ h.no_run p in_k free
      | no out ↦ let f : u k ≡ false = free k (omega arith) (omega arith) in ground arith
    ];
  }

  -- A run of `required` free blocks that ends with block `k` makes the count reach `required`.
  short :
      {k : ℕ} {s : Search} (p : ℕ)
      → Searching k s
      → s.matched_block_cnt + 1 < required
      → p + required ≤ k + 1
      → ¬ AllFree u p required
  short {k} {s} p h more le free = elim (dec_le (p + required) k) [
    | yes in_k ↦ h.no_run p in_k free
    | no out ↦
        let j : ℕ = k - 1 - s.matched_block_cnt in
        let f : u j ≡ false = free j (omega arith) (omega arith) in
        let e : u j ≡ true = h.edge j (omega arith) in ground arith
  ]

  free_start :
      {k : ℕ} {s : Search} (list_index i : ℕ)
      → Searching k s
      → k ≡ list_index * 8 + i
      → i < 8
      → let s' = free_block list_index i s in
        (s'.list_index_start * 8 + s'.bit_index_start + s'.matched_block_cnt ≡ k + 1)
        × (s'.bit_index_start < 8)
  free_start {k} {s} list_index i h e lt = elim (dec_lt 0 s.matched_block_cnt) [
    | yes some_before ↦ let st = h.start some_before in ground arith
    | no first ↦ ground arith
  ]

  free_free :
      {k : ℕ} {s : Search} (j : ℕ)
      → Searching k s
      → u k ≡ false
      → k + 1 ≤ j + (s.matched_block_cnt + 1)
      → j < k + 1
      → u j ≡ false
  free_free {k} j h free_k lo hi = elim (dec_lt j k) [
    | yes before ↦ h.free j (omega arith) before
    | no at_k ↦ let e : j ≡ k = omega arith in rw e free_k
  ]

  step-free :
      {k : ℕ} {s : Search} (list_index i : ℕ)
      → Searching k s
      → u k ≡ false
      → k ≡ list_index * 8 + i
      → i < 8
      → s.matched_block_cnt + 1 ≢ required
      → Searching (k + 1) (free_block list_index i s)
  step-free {k} {s} list_index i h free_k e lt ne = record {
    le = omega (arith, h.le);
    lt = omega (arith, h.lt);
    free = λ j lo hi. free_free j h free_k lo hi;
    start = λ q. free_start list_index i h e lt;
    edge = λ j q. h.edge j (omega arith);
    no_run = λ p le. short p h (omega (arith, h.lt)) le;
  }

  step-Found :
      {k : ℕ} {s : Search} (list_index i total : ℕ)
      → Searching k s
      → u k ≡ false
      → k ≡ list_index * 8 + i
      → i < 8
      → k < total
      → s.matched_block_cnt + 1 ≡ required
      → Found total (end_block list_index i (free_block list_index i s))
  step-Found {k} {s} list_index i total h free_k e lt inside full =
      let st = free_start list_index i h e lt in
      record {
        matched = full;
        in_word = (st.1, lt);
        ends = omega arith;
        inside = omega arith;
        free = λ j lo hi. free_free j h free_k (omega arith) (omega arith);
        first = λ p before. h.no_run p (omega arith);
      }

  -- Where the search stands after a loop that began before block `k` and had blocks up to `end`.
  pub data ScanResult (end total : ℕ) : Search × Bool → Type 0 where
    running : {s : Search} → Searching end s → ScanResult end total (s, false)
    broke : {s : Search} → Found total s → ScanResult end total (s, true)

  free_iff : (item : ℕ) → (bit_and item 1 == 0) ≡ not (item % 2 == 1)
  free_iff item = rw bit_and-one (ground arith)

  pub scan_bits-lem :
      (list_index n i item k total : ℕ) (s : Search)
      → Searching k s
      → k ≡ list_index * 8 + i
      → i + n ≤ 8
      → k + n ≤ total
      → ((j : ℕ) → j < n → bit item j ≡ u (k + j))
      → ScanResult (k + n) total (scan_bits required list_index n i item s)
  unfolding scan_bits bit
  scan_bits-lem list_index zero i item k total s h e lt inside bits =
      let z : k + 0 ≡ k = omega arith in rw z (running h)
  scan_bits-lem list_index (suc n) i item k total s h e lt inside bits = elim (Bool-cases (u k)) [
    | inl used_k ↦
        rw (free_iff item, here used_k, shift)
          (scan_bits-lem list_index n (i + 1) (item / 2) (k + 1) total (used_block s)
            (step-used h used_k (omega (arith, h.lt))) (omega arith) (omega arith) (omega arith)
            rest)
    | inr free_k ↦ elim (ℕ_discrete (s.matched_block_cnt + 1) required) [
      | yes full ↦
          let t : (s.matched_block_cnt + 1 == required) ≡ true = ground arith in
          rw (free_iff item, here free_k, t)
            (broke (step-Found list_index i total h free_k e (omega arith) (omega arith) full))
      | no more ↦
          let t : (s.matched_block_cnt + 1 == required) ≡ false = ground arith in
          rw (free_iff item, here free_k, t, shift)
            (scan_bits-lem list_index n (i + 1) (item / 2) (k + 1) total (free_block list_index i s)
              (step-free list_index i h free_k e (omega arith) more) (omega arith) (omega arith)
              (omega arith) rest)
    ]
  ]
    where
      here : {b : Bool} → u k ≡ b → (item % 2 == 1) ≡ b
      here q = let z : k + 0 ≡ k = omega arith in (rw z at (bits 0 (omega arith))) ∙ q

      shift : k + suc n ≡ k + 1 + n
      shift = omega arith

      rest : (j : ℕ) → j < n → bit (item / 2) j ≡ u (k + 1 + j)
      rest j q = let z : k + suc j ≡ k + 1 + j = omega arith in rw z at (bits (suc j) (omega arith))
