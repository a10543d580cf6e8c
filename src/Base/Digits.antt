-- ===== src/Base/Digits.antt =====
-- `|` of disjoint fields and `&` with a low mask, as arithmetic, from the digit recursion that the
-- native operations stand for.
use Prim.Native.Nat.{
  ℕ, zero, suc, ◌+◌, ◌-◌, ◌*◌, ◌/◌, ◌%◌, ◌≤◌, ◌<◌, min, max, bit_and, bit_or, digits,
  bit_and-bitwise, bit_or-bitwise,
}
use mathlib.Core.Path.{◌≡◌, refl, ◌∙◌}
use native.Mathlib.Omega.{arith}

-- The recursion on digits takes one round for each digit of `x`; rounds beyond `x` change nothing.
module _ (base : ℕ → ℕ) (op : ℕ → ℕ → ℕ) where
  one_more_round :
      (rounds x y : ℕ) → x ≤ rounds → digits base op (suc rounds) x y ≡ digits base op rounds x y
  one_more_round zero zero y le = refl
  one_more_round (suc rounds) zero y le = refl
  one_more_round zero (suc x) y le = absurd (omega arith)
  one_more_round (suc rounds) (suc x) y le =
      rw (one_more_round rounds (suc x / 2) (y / 2) (omega arith)) refl

  spare_rounds :
      (spare rounds x y : ℕ) → x + spare ≡ rounds → digits base op rounds x y ≡ digits base op x x y
  spare_rounds zero rounds x y e = let s : rounds ≡ x = omega arith in rw s refl
  spare_rounds (suc spare) zero x y e = absurd (omega arith)
  spare_rounds (suc spare) (suc rounds) x y e =
      one_more_round rounds x y (omega arith) ∙ spare_rounds spare rounds x y (omega arith)

  -- The half of a number needs less rounds than the number has below it.
  half_rounds :
      (x y : ℕ) → digits base op x (suc x / 2) y ≡ digits base op (suc x / 2) (suc x / 2) y
  half_rounds x y = spare_rounds (x - suc x / 2) x (suc x / 2) y (omega arith)

and_zero : (y : ℕ) → bit_and 0 y ≡ 0
and_zero y = bit_and-bitwise 0 y

or_zero : (y : ℕ) → bit_or 0 y ≡ y
or_zero y = bit_or-bitwise 0 y

lowest_digit_and : (x y : ℕ) → bit_and x y ≡ min (x % 2) (y % 2) + 2 * bit_and (x / 2) (y / 2)
lowest_digit_and zero y = omega (arith, and_zero y, and_zero (y / 2))
lowest_digit_and (suc x) y =
    let whole = bit_and-bitwise (suc x) y in
    let half = bit_and-bitwise (suc x / 2) (y / 2) in
    omega (arith, whole, half, half_rounds (λ _. zero) min x (y / 2))

lowest_digit_or : (x y : ℕ) → bit_or x y ≡ max (x % 2) (y % 2) + 2 * bit_or (x / 2) (y / 2)
lowest_digit_or zero y = omega (arith, or_zero y, or_zero (y / 2))
lowest_digit_or (suc x) y =
    let whole = bit_or-bitwise (suc x) y in
    let half = bit_or-bitwise (suc x / 2) (y / 2) in
    omega (arith, whole, half, half_rounds (λ b. b) max x (y / 2))

no_mask : (bound n : ℕ) → n < suc bound → bit_and n 0 ≡ 0
no_mask bound zero below = and_zero 0
no_mask zero (suc n) below = absurd (omega arith)
no_mask (suc bound) (suc n) below =
    let half = no_mask bound (suc n / 2) (omega arith) in
    omega (arith, lowest_digit_and (suc n) 0, half)

pub bit_and-one : (x : ℕ) → bit_and x 1 ≡ x % 2
bit_and-one x =
    let rest = no_mask (x / 2) (x / 2) (omega arith) in omega (arith, lowest_digit_and x 1, rest)

pub bit_and_seven : (x : ℕ) → bit_and x 7 ≡ x % 8
bit_and_seven x =
    let third = bit_and-one (x / 2 / 2) in
    let second = lowest_digit_and (x / 2) 3 in omega (arith, lowest_digit_and x 7, second, third)

-- A three-bit field under a field that starts at bit 3.
pub bit_or_fields : (a b : ℕ) → a < 8 → bit_or a (b * 8) ≡ a + b * 8
bit_or_fields a b h = omega (
  arith,
  lowest_digit_or a (b * 8),
  lowest_digit_or (a / 2) (b * 8 / 2),
  lowest_digit_or (a / 2 / 2) (b * 8 / 2 / 2),
  or_zero (b * 8 / 2 / 2 / 2),
  high,
)
  where
    high : bit_or (a / 2 / 2 / 2) (b * 8 / 2 / 2 / 2) ≡ b * 8 / 2 / 2 / 2
    high = let e : a / 2 / 2 / 2 ≡ 0 = omega arith in rw e (or_zero (b * 8 / 2 / 2 / 2))
