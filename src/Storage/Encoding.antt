-- ===== src/Storage/Encoding.antt =====
-- How a `usize` and a value of a sized type lie in memory, as `write_storage_data` writes them.
use native.Mathlib.Nat.{pow-suc}
use vnv_heap.Base.{
  ℕ, zero, suc, ◌+◌, ◌*◌, ◌/◌, ◌%◌, ◌^◌, ◌<◌, ◌≡◌, refl, ap, List, [], ◌∷◌, arith, length,
}

-- The `k` bytes of a word, the lowest first.
unfoldable pub to_bytes : ℕ → ℕ → List ℕ
to_bytes zero n = []
to_bytes (suc k) n = (n % 256) ∷ to_bytes k (n / 256)

unfoldable pub from_bytes : List ℕ → ℕ
from_bytes [] = 0
from_bytes (b ∷ bs) = b + 256 * from_bytes bs

pub length-to_bytes : (k n : ℕ) → length (to_bytes k n) ≡ k
unfolding to_bytes
length-to_bytes zero n = refl
length-to_bytes (suc k) n = ap suc (length-to_bytes k (n / 256))

from_bytes-to_bytes : (k n : ℕ) → n < 256 ^ k → from_bytes (to_bytes k n) ≡ n
unfolding to_bytes from_bytes
from_bytes-to_bytes zero n h = omega arith
from_bytes-to_bytes (suc k) n h =
    omega (arith, from_bytes-to_bytes k (n / 256) (omega (arith, pow-suc 256 k)))

-- A `usize` is read back as it was written.
pub from_bytes-usize : (n : ℕ) → n < 2 ^ 64 → from_bytes (to_bytes 8 n) ≡ n
from_bytes-usize n h = from_bytes-to_bytes 8 n (omega arith)

-- The memory representation of a sized type, padding included: a parameter, with the one fact that
-- the program relies on when it casts a value to bytes and back.
pub record Layout (T : Type 0) : Type 0 where
  pub size : ℕ
  pub encode : T → List ℕ
  pub decode : List ℕ → T
  pub length-encode : (t : T) → length (encode t) ≡ size
  pub decode-encode : (t : T) → decode (encode t) ≡ t
