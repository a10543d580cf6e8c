-- ===== src/Base/Bits.antt =====
-- The bits of a word, and what `|=` and `&=` with a one-bit mask do to them.
use Prim.Native.Nat.{ℕ, zero, suc, ◌-◌, ◌/◌, ◌%◌, ◌^◌, ◌<◌, ◌≤◌, bit_and, bit_or}
use mathlib.Core.Path.{◌≡◌, refl}
use mathlib.Core.Bool.{Bool, true, false, not, ◌&&◌}
use native.Mathlib.Omega.{arith}
use vnv_heap.Base.Tests.{◌==◌, ltb, if◌then◌else◌}

-- `(x >> i) & 1 == 1`, by shifting one place at a time.
unfoldable pub bit : ℕ → ℕ → Bool
bit x zero = x % 2 == 1
bit x (suc i) = bit (x / 2) i

-- A test of every number below a bound, as one Boolean that evaluates.
every : (ℕ → Bool) → ℕ → Bool
every test zero = true
every test (suc bound) = every test bound && test bound

every-at : (test : ℕ → Bool) (bound i : ℕ) → i < bound → every test bound ≡ true → test i ≡ true
unfolding every
every-at test zero i below holds = absurd (omega arith)
every-at test (suc bound) i below holds = ground (arith, every-at test bound i)

abbrev same : Bool → Bool → Bool
same true b = b
same false b = not b

same→eq : (a b : Bool) → same a b ≡ true → a ≡ b
same→eq a b h = ground arith

-- A test on a byte and a bit index, checked at every value.
abbrev table : (ℕ → ℕ → Bool) → Bool
table p = every (λ x. every (λ i. p x i) 8) 256

table_sound : (p : ℕ → ℕ → Bool) → table p ≡ true → (x i : ℕ) → x < 256 → i < 8 → p x i ≡ true
table_sound p t x i hx hi =
    every-at (λ i. p x i) 8 i hi (every-at (λ x. every (λ i. p x i) 8) 256 x hx t)

-- The same for two bit indices.
abbrev table₂ : (ℕ → ℕ → ℕ → Bool) → Bool
table₂ p = table (λ x i. every (λ j. p x i j) 8)

table₂_sound :
    (p : ℕ → ℕ → ℕ → Bool)
    → table₂ p ≡ true
    → (x i j : ℕ) → x < 256
    → i < 8
    → j < 8
    → p x i j ≡ true
table₂_sound p t x i j hx hi hj =
    every-at (λ j. p x i j) 8 j hj (table_sound (λ x i. every (λ j. p x i j) 8) t x i hx hi)

pub set_bit-lt : (x i : ℕ) → x < 256 → i < 8 → bit_or x (2 ^ i) < 256
unfolding every
set_bit-lt x i hx hi =
    let h : ltb (bit_or x (2 ^ i)) 256 ≡ true =
      table_sound (λ x i. ltb (bit_or x (2 ^ i)) 256) refl x i hx hi in
    ground arith

pub clear_bit-lt : (x i : ℕ) → x < 256 → i < 8 → bit_and x (255 - 2 ^ i) < 256
unfolding every
clear_bit-lt x i hx hi =
    let h : ltb (bit_and x (255 - 2 ^ i)) 256 ≡ true =
      table_sound (λ x i. ltb (bit_and x (255 - 2 ^ i)) 256) refl x i hx hi in
    ground arith

pub bit-set_bit :
    (x i j : ℕ)
    → x < 256
    → i < 8
    → j < 8
    → bit (bit_or x (2 ^ i)) j ≡ (if i == j then true else bit x j)
unfolding every bit
bit-set_bit x i j hx hi hj = same→eq _ _ (
    table₂_sound (λ x i j. same (bit (bit_or x (2 ^ i)) j) (if i == j then true else bit x j)) refl
      x i j hx hi hj)

pub bit-clear_bit :
    (x i j : ℕ)
    → x < 256
    → i < 8
    → j < 8
    → bit (bit_and x (255 - 2 ^ i)) j ≡ (if i == j then false else bit x j)
unfolding every bit
bit-clear_bit x i j hx hi hj = same→eq _ _ (
    table₂_sound
      (λ x i j. same (bit (bit_and x (255 - 2 ^ i)) j) (if i == j then false else bit x j)) refl x i
      j hx hi hj)

-- `x & (1 << i) != 0`
pub mask-bit : (x i : ℕ) → x < 256 → i < 8 → not (bit_and x (2 ^ i) == 0) ≡ bit x i
unfolding every bit
mask-bit x i hx hi =
    same→eq _ _ (table_sound (λ x i. same (not (bit_and x (2 ^ i) == 0)) (bit x i)) refl x i hx hi)

-- `(1 << c) - 1` has the bits below `c`, and no other below 8.
pub bit-low_mask : (c j : ℕ) → c ≤ 8 → j < 8 → bit (2 ^ c - 1) j ≡ ltb j c
unfolding every bit
bit-low_mask c j hc hj = same→eq _ _ (
    every-at (λ j. same (bit (2 ^ c - 1) j) (ltb j c)) 8 j hj
      (every-at (λ c. every (λ j. same (bit (2 ^ c - 1) j) (ltb j c)) 8) 9 c (omega arith) refl))

pub bit-zero : (j : ℕ) → bit 0 j ≡ false
unfolding bit
bit-zero zero = refl
bit-zero (suc j) = bit-zero j

pub low_mask-lt : (c : ℕ) → c ≤ 8 → 2 ^ c - 1 < 256
unfolding every
low_mask-lt c h =
    let t : ltb (2 ^ c - 1) 256 ≡ true =
      every-at (λ c. ltb (2 ^ c - 1) 256) 9 c (omega arith) refl in
    ground arith

-- `x &= !mask` on a 64-bit word that uses its low byte only.
pub clear_word_bit-lt : (x i : ℕ) → x < 256 → i < 8 → bit_and x (2 ^ 64 - 1 - 2 ^ i) < 256
unfolding every
clear_word_bit-lt x i hx hi =
    let h : ltb (bit_and x (2 ^ 64 - 1 - 2 ^ i)) 256 ≡ true =
      table_sound (λ x i. ltb (bit_and x (2 ^ 64 - 1 - 2 ^ i)) 256) refl x i hx hi in
    ground arith

pub bit-clear_word_bit :
    (x i j : ℕ)
    → x < 256
    → i < 8
    → j < 8
    → bit (bit_and x (2 ^ 64 - 1 - 2 ^ i)) j ≡ (if i == j then false else bit x j)
unfolding every bit
bit-clear_word_bit x i j hx hi hj = same→eq _ _ (
    table₂_sound
      (λ x i j. same (bit (bit_and x (2 ^ 64 - 1 - 2 ^ i)) j) (if i == j then false else bit x j))
      refl x i j hx hi hj)
