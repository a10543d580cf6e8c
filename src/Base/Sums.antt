-- ===== src/Base/Sums.antt =====
-- Sums of a function over a range of numbers.
use Prim.Native.Nat.{ℕ, zero, suc, ◌+◌, ◌*◌, ◌≤◌, ◌<◌}
use mathlib.Core.Path.{◌≡◌, refl, subst₂}
use mathlib.Core.Logic.{◌≢◌}
use native.Mathlib.Omega.{arith}
use native.Mathlib.Decide.{ℕ_discrete}

-- f i + f (i + 1) + … + f (i + n - 1)
unfoldable pub sum_range : (ℕ → ℕ) → ℕ → ℕ → ℕ
sum_range f i zero = 0
sum_range f i (suc n) = f i + sum_range f (i + 1) n

pub sum_range-congr :
    (f g : ℕ → ℕ) (i n : ℕ)
    → ((k : ℕ) → i ≤ k → k < i + n → f k ≡ g k)
    → sum_range f i n ≡ sum_range g i n
unfolding sum_range
sum_range-congr f g i zero h = refl
sum_range-congr f g i (suc n) h = omega (
  arith,
  h i (omega arith) (omega arith),
  sum_range-congr f g (i + 1) n (λ k lo hi. h k (omega arith) (omega arith)),
)

-- Two functions that differ at `k` alone have sums that differ by their values at `k`.
pub sum_range-change :
    (f g : ℕ → ℕ) (k i n : ℕ)
    → ((j : ℕ) → j ≢ k → f j ≡ g j)
    → i ≤ k
    → k < i + n
    → sum_range f i n + g k ≡ sum_range g i n + f k
unfolding sum_range
sum_range-change f g k i zero h lo hi = absurd (omega arith)
sum_range-change f g k i (suc n) h lo hi = elim (ℕ_discrete k i) [
  | yes e ↦ rw e (omega (arith, sum_range-congr f g (i + 1) n (λ j a b. h j (omega arith))))
  | no ne ↦
      omega
        (arith, h i (omega arith), sum_range-change f g k (i + 1) n h (omega arith) (omega arith))
]

pub sum_range-add :
    (f g h : ℕ → ℕ) (i n : ℕ)
    → ((k : ℕ) → f k + g k ≡ h k)
    → sum_range f i n + sum_range g i n ≡ sum_range h i n
unfolding sum_range
sum_range-add f g h i zero e = refl
sum_range-add f g h i (suc n) e = omega (arith, e i, sum_range-add f g h (i + 1) n e)

pub sum_range-append :
    (f : ℕ → ℕ) (i n m : ℕ) → sum_range f i (n + m) ≡ sum_range f i n + sum_range f (i + n) m
unfolding sum_range
sum_range-append f i zero m =
    let e : zero + m ≡ m = omega arith in
    let e' : i + zero ≡ i = omega arith in rw (e, e') (omega arith)
sum_range-append f i (suc n) m =
    let e : suc n + m ≡ suc (n + m) = omega arith in
    let e' : i + suc n ≡ i + 1 + n = omega arith in
    rw (e, e') (omega (arith, sum_range-append f (i + 1) n m))

pub sum_range-le : (f : ℕ → ℕ) (b i n : ℕ) → ((k : ℕ) → f k ≤ b) → sum_range f i n ≤ n * b
unfolding sum_range
sum_range-le f b i zero h = omega arith
sum_range-le f b i (suc n) h = omega (arith, h i, sum_range-le f b (i + 1) n h)

pub sum_range-shift :
    (f g : ℕ → ℕ) (i j n : ℕ)
    → ((k : ℕ) → k < n → f (i + k) ≡ g (j + k))
    → sum_range f i n ≡ sum_range g j n
unfolding sum_range
sum_range-shift f g i j zero h = refl
sum_range-shift f g i j (suc n) h =
    let h0 : f i ≡ g j =
      (let e : i + 0 ≡ i = omega arith in
        let e' : j + 0 ≡ j = omega arith in subst₂ (λ a b. f a ≡ g b) e e' (h 0 (omega arith))) in
    omega (arith, h0, sum_range-shift f g (i + 1) (j + 1) n (next))
  where
    next : (k : ℕ) → k < n → f (i + 1 + k) ≡ g (j + 1 + k)
    next k lt =
        let e : i + suc k ≡ i + 1 + k = omega arith in
        let e' : j + suc k ≡ j + 1 + k = omega arith in
        subst₂ (λ a b. f a ≡ g b) e e' (h (suc k) (omega arith))

pub sum_range-const :
    (f : ℕ → ℕ) (c i n : ℕ) → ((k : ℕ) → i ≤ k → k < i + n → f k ≡ c) → sum_range f i n ≡ n * c
unfolding sum_range
sum_range-const f c i zero h = omega arith
sum_range-const f c i (suc n) h = omega (
  arith,
  h i (omega arith) (omega arith),
  sum_range-const f c (i + 1) n (λ k lo hi. h k (omega arith) (omega arith)),
)
