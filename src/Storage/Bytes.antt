-- ===== src/Storage/Bytes.antt =====
-- The contents of a storage as a function from addresses to bytes.
use mathlib.Core.Path.{ap₂}
use vnv_heap.Base.{
  ℕ, zero, suc, ◌+◌, ◌≤◌, ◌<◌, ◌≡◌, refl, ap, ◌∙◌, ==_self, false, ◌⊎◌, List, [], ◌∷◌, ◌++◌, arith,
  if◌then◌else◌, ◌==◌, length, take, drop,
}

abbrev pub Contents : Type 0
Contents = ℕ → ℕ

-- The `n` bytes from `offset` on.
unfoldable pub slice : Contents → ℕ → ℕ → List ℕ
slice b offset zero = []
slice b offset (suc n) = b offset ∷ slice b (offset + 1) n

-- The contents after the bytes are written from `offset` on.
unfoldable pub patch : Contents → ℕ → List ℕ → Contents
patch b offset [] a = b a
patch b offset (x ∷ xs) a = if offset == a then x else patch b (offset + 1) xs a

pub length-slice : (b : Contents) (o n : ℕ) → length (slice b o n) ≡ n
unfolding slice
length-slice b o zero = refl
length-slice b o (suc n) = ap suc (length-slice b (o + 1) n)

pub slice-congr :
    (b c : Contents) (o n : ℕ)
    → ((a : ℕ) → o ≤ a → a < o + n → b a ≡ c a)
    → slice b o n ≡ slice c o n
unfolding slice
slice-congr b c o zero h = refl
slice-congr b c o (suc n) h =
    ap₂ ◌∷◌ (h o (omega arith) (omega arith))
      (slice-congr b c (o + 1) n (λ a lo hi. h a (omega arith) (omega arith)))

pub slice-append : (b : Contents) (o n m : ℕ) → slice b o (n + m) ≡ slice b o n ++ slice b (o + n) m
unfolding slice
slice-append b o zero m =
    let e : zero + m ≡ m = omega arith in let e' : o + zero ≡ o = omega arith in rw (e, e') refl
slice-append b o (suc n) m =
    let e : suc n + m ≡ suc (n + m) = omega arith in
    let e' : o + suc n ≡ o + 1 + n = omega arith in
    rw (e, e') (ap (◌∷◌ (b o)) (slice-append b (o + 1) n m))

-- A byte outside what is written stays.
pub patch_outside :
    (b : Contents) (o : ℕ) (xs : List ℕ) (a : ℕ)
    → (a < o) ⊎ (o + length xs ≤ a)
    → patch b o xs a ≡ b a
unfolding patch
patch_outside b o [] a h = refl
patch_outside b o (x ∷ xs) a h =
    let ne : (o == a) ≡ false = ground arith in rw ne (patch_outside b (o + 1) xs a (omega arith))

-- What is written is read back.
pub slice-patch : (b : Contents) (o : ℕ) (xs : List ℕ) → slice (patch b o xs) o (length xs) ≡ xs
unfolding slice patch
slice-patch b o [] = refl
slice-patch b o (x ∷ xs) = ap₂ ◌∷◌ (rw (==_self o) refl) (
    slice-congr (patch b o (x ∷ xs)) (patch b (o + 1) xs) (o + 1) (length xs)
      (λ a lo hi. let ne : (o == a) ≡ false = ground arith in rw ne refl)
    ∙ slice-patch b (o + 1) xs)

pub take-append {ℓ} : {A : Type ℓ} (xs ys : List A) → take (length xs) (xs ++ ys) ≡ xs
take-append [] ys = refl
take-append (x ∷ xs) ys = ap (◌∷◌ x) (take-append xs ys)

pub drop-append {ℓ} : {A : Type ℓ} (xs ys : List A) → drop (length xs) (xs ++ ys) ≡ ys
drop-append [] ys = refl
drop-append (x ∷ xs) ys = drop-append xs ys
