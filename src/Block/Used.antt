-- ===== src/Block/Used.antt =====
-- The bit list as a set of used blocks.
use native.Mathlib.Decide.{ℕ_discrete}
use vnv_heap.Base.{
  ℕ, ◌+◌, ◌-◌, ◌/◌, ◌%◌, ◌^◌, ◌≤◌, ◌<◌, ◌≡◌, refl, ◌∙◌, ltb, leb, ◌&&◌, Bool, true, false, List,
  bit_and, bit_or, arith, if◌then◌else◌, ◌==◌, length, get_or, set, All, All-set, All-get_or,
  length-set, get_or-set_self, get_or-set_ne,
}
use vnv_heap.Base.Bits.{bit, set_bit-lt, bit-set_bit, clear_word_bit-lt, bit-clear_word_bit}

-- The allocator uses the low eight bits of each word.
abbrev pub IsItem : ℕ → Type 0
IsItem x = x < 256

-- Is block `k` in use?
abbrev pub used : List ℕ → ℕ → Bool
used bit_list k = bit (get_or bit_list (k / 8) 0) (k % 8)

abbrev pub set_block : List ℕ → ℕ → List ℕ
set_block bit_list k = set bit_list (k / 8) (bit_or (get_or bit_list (k / 8) 0) (2 ^ (k % 8)))

abbrev pub clear_block : List ℕ → ℕ → List ℕ
clear_block bit_list k =
    set bit_list (k / 8) (bit_and (get_or bit_list (k / 8) 0) (2 ^ 64 - 1 - 2 ^ (k % 8)))

module _ (bit_list : List ℕ) (v : All IsItem bit_list) where
  get_or-IsItem : (i : ℕ) → IsItem (get_or bit_list i 0)
  get_or-IsItem i = All-get_or IsItem bit_list i 0 (omega arith) v

  pub set_block-IsItem : (k : ℕ) → All IsItem (set_block bit_list k)
  set_block-IsItem k =
      All-set IsItem bit_list (k / 8) _ (set_bit-lt _ (k % 8) (get_or-IsItem (k / 8)) (omega arith))
        v

  pub clear_block-IsItem : (k : ℕ) → All IsItem (clear_block bit_list k)
  clear_block-IsItem k =
      All-set IsItem bit_list (k / 8) _
        (clear_word_bit-lt _ (k % 8) (get_or-IsItem (k / 8)) (omega arith)) v

  pub used-set_block :
      (k j : ℕ)
      → k / 8 < length bit_list
      → used (set_block bit_list k) j ≡ (if k == j then true else used bit_list j)
  used-set_block k j h = elim (ℕ_discrete (k / 8) (j / 8)) [
    | yes e ↦
        rw
          (
            ← e,
            get_or-set_self bit_list (k / 8) _ 0 h,
            bit-set_bit _ (k % 8) (j % 8) (get_or-IsItem (k / 8)) (omega arith) (omega arith),
          )
          (ground arith)
    | no ne ↦ rw (get_or-set_ne bit_list _ 0 ne) (ground arith)
  ]

  pub used-clear_block :
      (k j : ℕ)
      → k / 8 < length bit_list
      → used (clear_block bit_list k) j ≡ (if k == j then false else used bit_list j)
  used-clear_block k j h = elim (ℕ_discrete (k / 8) (j / 8)) [
    | yes e ↦
        rw
          (
            ← e,
            get_or-set_self bit_list (k / 8) _ 0 h,
            bit-clear_word_bit _ (k % 8) (j % 8) (get_or-IsItem (k / 8)) (omega arith)
                (omega arith),
          )
          (ground arith)
    | no ne ↦ rw (get_or-set_ne bit_list _ 0 ne) (ground arith)
  ]

-- Every one of the `n` blocks from `p` on is free, or in use.
abbrev pub AllFree : (ℕ → Bool) → ℕ → ℕ → Type 0
AllFree u p n = (j : ℕ) → p ≤ j → j < p + n → u j ≡ false

abbrev pub AllUsed : (ℕ → Bool) → ℕ → ℕ → Type 0
AllUsed u p n = (j : ℕ) → p ≤ j → j < p + n → u j ≡ true

-- `after` is `before` with the `n` blocks from `p` on set to `to`.
pub record Changed (to : Bool) (before after : List ℕ) (p n : ℕ) : Type 0 where
  pub items : All IsItem after
  pub len : length after ≡ length before
  pub blocks : (j : ℕ) → used after j ≡ (if leb p j && ltb j (p + n) then to else used before j)

pub Changed-refl : (to : Bool) (l : List ℕ) (p : ℕ) → All IsItem l → Changed to l l p 0
Changed-refl to l p v = record { items = v; len = refl; blocks = λ j. ground arith }

pub Changed-trans :
    {to : Bool} {a b c : List ℕ} {p q n m k : ℕ}
    → Changed to a b p n
    → Changed to b c q m
    → p + n ≡ q
    → n + m ≡ k
    → Changed to a c p k
Changed-trans x y e e' = record {
  items = y.items;
  len = y.len ∙ x.len;
  blocks = λ j. ground (arith, x.blocks j, y.blocks j);
}

module _ (bit_list : List ℕ) (v : All IsItem bit_list) (k : ℕ) (h : k / 8 < length bit_list) where
  pub set_block-Changed : Changed true bit_list (set_block bit_list k) k 1
  set_block-Changed = record {
    items = set_block-IsItem bit_list v k;
    len = length-set bit_list (k / 8) _;
    blocks = λ j. used-set_block bit_list v k j h ∙ ground arith;
  }

  pub clear_block-Changed : Changed false bit_list (clear_block bit_list k) k 1
  clear_block-Changed = record {
    items = clear_block-IsItem bit_list v k;
    len = length-set bit_list (k / 8) _;
    blocks = λ j. used-clear_block bit_list v k j h ∙ ground arith;
  }
