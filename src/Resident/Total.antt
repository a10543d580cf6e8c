-- ===== src/Resident/Total.antt =====
-- Sums over the objects of a list, and how they change with the list and with one object.
use vnv_heap.Base.{
  ℕ, ◌+◌, ◌≤◌, ◌≡◌, refl, true, false, List, [], ◌∷◌, arith, ◌==◌, ltb, inl, inr, Bool-cases,
}
use vnv_heap.Buddy.Chain.{has}
use vnv_heap.Buddy.Push.{insert}
use vnv_heap.Buddy.Remove.{erase}

abbrev pub Distinct : List ℕ → Type 0
Distinct [] = Unit
Distinct (x ∷ xs) = (has x xs ≡ false) × Distinct xs

unfoldable pub total : (ℕ → ℕ) → List ℕ → ℕ
total f [] = 0
total f (x ∷ xs) = f x + total f xs

pub total-congr :
    (f g : ℕ → ℕ) (xs : List ℕ) → ((q : ℕ) → has q xs ≡ true → f q ≡ g q) → total f xs ≡ total g xs
unfolding total
total-congr f g [] h = refl
total-congr f g (x ∷ xs) h =
    omega (arith, h x (ground arith), total-congr f g xs (λ q m. h q (ground arith)))

-- A list without an object has the sum without it.
pub total-erase :
    (f : ℕ → ℕ) (p : ℕ) (xs : List ℕ) → has p xs ≡ true → total f (erase p xs) + f p ≡ total f xs
unfolding total erase
total-erase f p [] h = absurd (ground arith)
total-erase f p (x ∷ xs) h = elim (Bool-cases (x == p)) [
  | inl here ↦ let e : x ≡ p = ground arith in rw (here, e) (omega arith)
  | inr later ↦
      let e : has p xs ≡ true = ground arith in rw later (omega (arith, total-erase f p xs e))
]

pub total-insert : (f : ℕ → ℕ) (p : ℕ) (xs : List ℕ) → total f (insert p xs) ≡ f p + total f xs
unfolding total insert
total-insert f p [] = refl
total-insert f p (x ∷ xs) = elim (Bool-cases (ltb p x)) [
  | inl here ↦ rw here refl
  | inr later ↦ rw later (omega (arith, total-insert f p xs))
]

-- Two functions that differ at one object have sums that differ by their values there.
pub total-change :
    (f g : ℕ → ℕ) (p : ℕ) (xs : List ℕ)
    → Distinct xs
    → has p xs ≡ true
    → ((q : ℕ) → (q == p) ≡ false → f q ≡ g q)
    → total f xs + g p ≡ total g xs + f p
unfolding total
total-change f g p [] dis h e = absurd (ground arith)
total-change f g p (x ∷ xs) dis h e = elim (Bool-cases (x == p)) [
  | inl here ↦
      let q : x ≡ p = ground arith in
      let rest = total-congr f g xs (λ k m. e k (ground (arith, dis.0))) in
      rw q (omega (arith, rest))
  | inr later ↦
      let m : has p xs ≡ true = ground arith in
      omega (arith, e x later, total-change f g p xs dis.1 m e)
]

pub le-total : (f : ℕ → ℕ) (p : ℕ) (xs : List ℕ) → has p xs ≡ true → f p ≤ total f xs
le-total f p xs h = omega (arith, total-erase f p xs h)

pub erase-Distinct : (p : ℕ) (xs : List ℕ) → Distinct xs → Distinct (erase p xs)
unfolding erase
erase-Distinct p [] dis = tt
erase-Distinct p (x ∷ xs) dis = elim (Bool-cases (x == p)) [
  | inl here ↦ rw here dis.1
  | inr later ↦ rw later (absent-erase x p xs dis.0, erase-Distinct p xs dis.1)
]
  where
    absent-erase : (a target : ℕ) (ys : List ℕ) → has a ys ≡ false → has a (erase target ys) ≡ false
    absent-erase a target [] h = refl
    absent-erase a target (y ∷ ys) h = ground (arith, absent-erase a target ys)

pub has-erase_gone : (p : ℕ) (xs : List ℕ) → Distinct xs → has p (erase p xs) ≡ false
unfolding erase
has-erase_gone p [] dis = refl
has-erase_gone p (x ∷ xs) dis = elim (Bool-cases (x == p)) [
  | inl here ↦ let e : x ≡ p = ground arith in rw here (rw e at dis.0)
  | inr later ↦ let t : (p == x) ≡ false = ground arith in rw (later, t) (has-erase_gone p xs dis.1)
]

pub insert-Distinct :
    (p : ℕ) (xs : List ℕ) → has p xs ≡ false → Distinct xs → Distinct (insert p xs)
unfolding insert
insert-Distinct p [] h dis = (refl, tt)
insert-Distinct p (x ∷ xs) h dis = elim (Bool-cases (ltb p x)) [
  | inl here ↦ rw here (h, dis)
  | inr later ↦
      rw later
        (has-insert_other x p xs (ground arith) dis.0, insert-Distinct p xs (ground arith) dis.1)
]
  where
    has-insert_other :
        (a item : ℕ) (ys : List ℕ)
        → (a == item) ≡ false
        → has a ys ≡ false
        → has a (insert item ys) ≡ false
    has-insert_other a item [] ne h = ground arith
    has-insert_other a item (y ∷ ys) ne h = ground (arith, has-insert_other a item ys ne)
