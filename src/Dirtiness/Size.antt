-- ===== src/Dirtiness/Size.antt =====
-- The dirty size as a sum over the dirty blocks, and the size of an object that is dirty
-- throughout.
use vnv_heap.Base.{
  ℕ, zero, suc, ◌+◌, ◌*◌, ◌/◌, ◌%◌, ◌≤◌, ◌<◌, ◌≡◌, refl, sym, ap, ◌∙◌, List, [], ◌∷◌, bit_and,
  arith, if◌then◌else◌, ◌==◌, length, get_or,
}
use vnv_heap.Base.Bits.{bit}
use vnv_heap.Base.Digits.{bit_and-one}
use vnv_heap.Base.Words.{usize_mod, add_usize}
use vnv_heap.Base.Sums.{sum_range, sum_range-le, sum_range-shift, sum_range-append}
use vnv_heap.Dirtiness.Info.{block_size}
use vnv_heap.Dirtiness.Wrapper.{Wrapper, size_at, calc_bits, calc_bytes, calc_dirty_size}
use vnv_heap.Dirtiness.Blocks.{IsValid, dirty_block, bytes_of_block}

-- What block `k` contributes to the dirty size.
abbrev pub dirty_bytes : Wrapper → ℕ → ℕ
dirty_bytes w k = if dirty_block w k then bytes_of_block w k else 0

abbrev bit_bytes : Wrapper → ℕ → ℕ → ℕ → ℕ
bit_bytes w byte item i = if bit item i then size_at w byte i else 0

pub size_at-le : {w : Wrapper} (byte i : ℕ) → IsValid w → size_at w byte i ≤ block_size
size_at-le byte i v = ground arith

calc_bits-sum :
    (w : Wrapper) (byte item : ℕ)
    → IsValid w
    → (n i cpy acc : ℕ) → ((j : ℕ) → bit cpy j ≡ bit item (i + j))
    → acc + n * block_size < usize_mod
    → calc_bits w byte n i cpy acc ≡ acc + sum_range (bit_bytes w byte item) i n
unfolding calc_bits sum_range bit
calc_bits-sum w byte item v zero i cpy acc e fits = omega arith
calc_bits-sum w byte item v (suc n) i cpy acc e fits =
    calc_bits-sum w byte item v n (i + 1) (cpy / 2) next rest small ∙ total
  where
    next : ℕ
    next = if bit_and cpy 1 == 1 then add_usize acc (size_at w byte i) else acc

    here : bit item i ≡ (bit_and cpy 1 == 1)
    here = let z : i + 0 ≡ i = omega arith in rw bit_and-one (sym (rw z at (e 0)))

    next-eq : next ≡ acc + bit_bytes w byte item i
    next-eq = rw here (ground (arith, size_at-le byte i v))

    small : next + n * block_size < usize_mod
    small = ground (arith, next-eq, size_at-le byte i v)

    rest : (j : ℕ) → bit (cpy / 2) j ≡ bit item (i + 1 + j)
    rest j = let s : i + suc j ≡ i + 1 + j = omega arith in rw s at (e (suc j))

    total :
        next + sum_range (bit_bytes w byte item) (i + 1) n
        ≡ acc + (bit_bytes w byte item i + sum_range (bit_bytes w byte item) (i + 1) n)
    total = omega (arith, next-eq)

-- The eight bits of one byte are eight blocks.
byte_bits :
    (w : Wrapper) (byte : ℕ)
    → sum_range (bit_bytes w byte (get_or w.data_range byte 0)) 0 8
      ≡ sum_range (dirty_bytes w) (byte * 8) 8
byte_bits w byte = sum_range-shift _ _ 0 (byte * 8) 8 λ k h.
    let d : (byte * 8 + k) / 8 ≡ byte = omega arith in
    let m : (byte * 8 + k) % 8 ≡ k = omega arith in
    let z : 0 + k ≡ k = omega arith in rw (d, m, z) refl

bits_sum :
    {w : Wrapper} (byte i n : ℕ) (item : ℕ)
    → IsValid w
    → sum_range (bit_bytes w byte item) i n ≤ n * block_size
bits_sum byte i n item v = sum_range-le _ block_size i n λ k. ground (arith, size_at-le byte k v)

calc_bytes-sum :
    (w : Wrapper)
    → IsValid w
    → (rest : List ℕ) (byte acc : ℕ)
    → ((j : ℕ) → get_or rest j 0 ≡ get_or w.data_range (byte + j) 0)
    → acc + length rest * 8 * block_size < usize_mod
    → calc_bytes w byte rest acc ≡ acc + sum_range (dirty_bytes w) (byte * 8) (length rest * 8)
unfolding calc_bytes
calc_bytes-sum w v [] byte acc e fits = unfold sum_range in omega arith
calc_bytes-sum w v (item ∷ rest) byte acc e fits = omega (
  arith,
  bits,
  calc_bytes-sum w v rest (byte + 1) (calc_bits w byte 8 0 item acc) tail
      (omega (arith, bits, bits_sum byte 0 8 item v)),
  split,
  byte_bits w byte,
  same,
)
  where
    bits : calc_bits w byte 8 0 item acc ≡ acc + sum_range (bit_bytes w byte item) 0 8
    bits =
        calc_bits-sum w byte item v 8 0 item acc (λ j. let z : 0 + j ≡ j = omega arith in rw z refl)
          (omega arith)

    same :
        sum_range (bit_bytes w byte item) 0 8
        ≡ sum_range (bit_bytes w byte (get_or w.data_range byte 0)) 0 8
    same =
        let z : byte + 0 ≡ byte = omega arith in
        let h : item ≡ get_or w.data_range byte 0 = rw z at (e 0) in
        ap (λ t. sum_range (bit_bytes w byte t) 0 8) h

    tail : (j : ℕ) → get_or rest j 0 ≡ get_or w.data_range (byte + 1 + j) 0
    tail j = let s : byte + suc j ≡ byte + 1 + j = omega arith in rw s at (e (suc j))

    split :
        sum_range (dirty_bytes w) (byte * 8) (suc (length rest) * 8)
        ≡ sum_range (dirty_bytes w) (byte * 8) 8
          + sum_range (dirty_bytes w) ((byte + 1) * 8) (length rest * 8)
    split =
        let a : suc (length rest) * 8 ≡ 8 + length rest * 8 = omega arith in
        let b : (byte + 1) * 8 ≡ byte * 8 + 8 = omega arith in
        rw (a, b) (sum_range-append (dirty_bytes w) (byte * 8) 8 (length rest * 8))

-- On a valid wrapper the loops of `calc_dirty_size` add up the bytes of the dirty blocks.
pub calc_dirty_size-sum :
    (w : Wrapper)
    → IsValid w
    → calc_dirty_size w ≡ sum_range (dirty_bytes w) 0 (length w.data_range * 8)
unfolding calc_dirty_size
calc_dirty_size-sum w v =
    let few = v.few_bytes in
    omega (
      arith,
      calc_bytes-sum w v w.data_range 0 0 (λ j. let z : 0 + j ≡ j = omega arith in rw z refl)
          (omega arith),
      zero_start,
    )
  where
    zero_start :
        sum_range (dirty_bytes w) (0 * 8) (length w.data_range * 8)
        ≡ sum_range (dirty_bytes w) 0 (length w.data_range * 8)
    zero_start = refl
