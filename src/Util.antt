-- ===== src/Util.antt =====
-- vnv_heap/src/util.rs: the two roundings.
use vnv_heap.Base.{ℕ, ◌+◌, ◌-◌, ◌*◌, ◌/◌, ◌≤◌, ◌<◌, ◌≡◌, arith}
use vnv_heap.Base.Words.{usize_mod, add_usize, sub_usize, mul_usize}

unfoldable pub round_up_to_nearest : ℕ → ℕ → ℕ
round_up_to_nearest num multiple =
    mul_usize (sub_usize (add_usize num multiple) 1 / multiple) multiple

unfoldable pub div_ceil : ℕ → ℕ → ℕ
div_ceil num div = sub_usize (add_usize num div) 1 / div

-- Where `num + div` does not wrap, the quotient is the least one whose multiple covers `num`.
pub div_ceil_bounds :
    (num div : ℕ)
    → 0 < div
    → num + div < usize_mod
    → (num ≤ div_ceil num div * div) × (div_ceil num div * div < num + div)
unfolding div_ceil
div_ceil_bounds num div h fits =
    let e : sub_usize (add_usize num div) 1 ≡ num + div - 1 = omega arith in rw e (grind arith)
