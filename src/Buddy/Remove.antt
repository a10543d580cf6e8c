-- ===== src/Buddy/Remove.antt =====
-- `pop` takes the first block, and the search of `dealloc` takes out the block that it looks for.
use vnv_heap.Base.{
  ℕ, zero, suc, ◌≤◌, ◌<◌, ◌≡◌, ◌≢◌, refl, ◌∙◌, Bool, true, false, List, [], ◌∷◌, arith,
  if◌then◌else◌, ◌==◌, length, some, inl, inr, Bool-cases, ==_self,
}
use vnv_heap.Buddy.LinkedList.{
  Memory, null, LinkedList, Slot, at_head, at_word, read_slot, write_slot, find_node, remove_at,
  remove_first, pop,
}
use vnv_heap.Buddy.Chain.{has, Chain, outside, Chain-frame}

-- `pop` takes the block of the lowest position off the chain and writes no word.
pub pop-Chain :
    (x : ℕ) (xs : List ℕ) (l : LinkedList)
    → Chain l.mem l.head (x ∷ xs)
    → ((pop l).0 ≡ some x) × Chain (pop l).1.mem (pop l).1.head xs × ((pop l).1.mem ≡ l.mem)
unfolding pop
pop-Chain x xs l c = let nz : (x == null) ≡ false = ground arith in rw (c.0, nz) (refl, c.3, refl)

unfoldable pub erase : ℕ → List ℕ → List ℕ
erase target [] = []
erase target (x ∷ xs) = if x == target then xs else x ∷ erase target xs

abbrev pub is : ℕ → ℕ → Bool
is target block = block == target

cut : ℕ → List ℕ → Slot → LinkedList → LinkedList
cut target [] slot l = l
cut target (x ∷ xs) slot l =
    if x == target then write_slot slot (l.mem x) l else cut target xs (at_word x) l

remove_at-cut :
    (target : ℕ) (xs : List ℕ) (fuel : ℕ) (slot : Slot) (l : LinkedList)
    → Chain l.mem (read_slot slot l) xs
    → length xs < fuel
    → remove_at fuel (is target) slot l ≡ some (has target xs, cut target xs slot l)
unfolding remove_at cut find_node
remove_at-cut target xs zero slot l c f = absurd (omega arith)
remove_at-cut target [] (suc fuel) slot l c f = rw c refl
remove_at-cut target (x ∷ xs) (suc fuel) slot l c f =
    let nz : (x == null) ≡ false = ground arith in
    elim (Bool-cases (x == target)) [
      | inl here ↦ let e : (target == x) ≡ true = ground arith in rw (c.0, nz, here, e) refl
      | inr later ↦
          let e : (target == x) ≡ false = ground arith in
          rw (c.0, nz, later, e) (remove_at-cut target xs fuel (at_word x) l c.3 (omega arith))
    ]

cut-same :
    (target : ℕ) (xs : List ℕ) (slot : Slot) (l : LinkedList) (a : ℕ)
    → has a xs ≡ false
    → outside slot (a ∷ []) ≡ true
    → (cut target xs slot l).mem a ≡ l.mem a
unfolding cut
cut-same target [] slot l a out apart = refl
cut-same target (x ∷ xs) at_head l a out apart = ground (arith, cut-same target xs (at_word x) l a)
cut-same target (x ∷ xs) (at_word b) l a out apart =
    ground (arith, cut-same target xs (at_word x) l a)

cut-head :
    (target : ℕ) (xs : List ℕ) (b : ℕ) (l : LinkedList)
    → (cut target xs (at_word b) l).head ≡ l.head
unfolding cut
cut-head target [] b l = refl
cut-head target (x ∷ xs) b l = ground (arith, cut-head target xs x l)

has-erase : (a target : ℕ) (xs : List ℕ) → has a xs ≡ false → has a (erase target xs) ≡ false
unfolding erase
has-erase a target [] h = refl
has-erase a target (x ∷ xs) h = ground (arith, has-erase a target xs)

cut_here :
    (x : ℕ) (xs : List ℕ) (slot : Slot) (l : LinkedList)
    → Chain l.mem (l.mem x) xs
    → outside slot xs ≡ true
    → let l' = write_slot slot (l.mem x) l in Chain l'.mem (read_slot slot l') xs
cut_here x xs at_head l c apart = c
cut_here x xs (at_word b) l c apart =
    rw (==_self b) (Chain-frame (l.mem x) xs c (λ a h. ground arith))

cut_read :
    (target x : ℕ) (xs : List ℕ) (slot : Slot) (l : LinkedList)
    → read_slot slot l ≡ x
    → outside slot (x ∷ xs) ≡ true
    → read_slot slot (cut target xs (at_word x) l) ≡ x
cut_read target x xs at_head l e apart = cut-head target xs x l ∙ e
cut_read target x xs (at_word b) l e apart =
    cut-same target xs (at_word x) l b (ground arith) (ground arith) ∙ e

outside-tail :
    (slot : Slot) (x : ℕ) (xs : List ℕ) → outside slot (x ∷ xs) ≡ true → outside slot xs ≡ true
outside-tail at_head x xs h = refl
outside-tail (at_word b) x xs h = ground arith

cut-Chain :
    (target : ℕ) (xs : List ℕ) (slot : Slot) (l : LinkedList)
    → Chain l.mem (read_slot slot l) xs
    → outside slot xs ≡ true
    → Chain (cut target xs slot l).mem (read_slot slot (cut target xs slot l)) (erase target xs)
unfolding cut erase
cut-Chain target [] slot l c apart = c
cut-Chain target (x ∷ xs) slot l c apart = elim (Bool-cases (x == target)) [
  | inl here ↦ rw here (cut_here x xs slot l c.3 (outside-tail slot x xs apart))
  | inr later ↦ rw later (
    cut_read target x xs slot l c.0 apart,
    c.1,
    has-erase x target xs c.2,
    cut-Chain target xs (at_word x) l c.3 (ground arith),
  )
]

-- Over a chain, with fuel for each block and one round more, the search of `dealloc` tells whether
-- the block is in the list, takes it out, and changes words of the chain only.
pub remove_first-Chain :
    (target fuel : ℕ) (xs : List ℕ) (l : LinkedList)
    → Chain l.mem l.head xs
    → length xs < fuel
    → (l' : LinkedList) × (remove_first fuel (is target) l ≡ some (has target xs, l'))
      × Chain l'.mem l'.head (erase target xs)
      × ((a : ℕ) → has a xs ≡ false → l'.mem a ≡ l.mem a)
unfolding remove_first
remove_first-Chain target fuel xs l c f = (
  cut target xs at_head l,
  remove_at-cut target xs fuel at_head l c f,
  cut-Chain target xs at_head l c refl,
  λ a out. cut-same target xs at_head l a out refl,
)

pub has-erase_sub : (a target : ℕ) (xs : List ℕ) → has a (erase target xs) ≡ true → has a xs ≡ true
unfolding erase
has-erase_sub a target [] h = h
has-erase_sub a target (x ∷ xs) h = ground (arith, has-erase_sub a target xs)

pub has-erase_ne : (a target : ℕ) (xs : List ℕ) → a ≢ target → has a (erase target xs) ≡ has a xs
unfolding erase
has-erase_ne a target [] h = refl
has-erase_ne a target (x ∷ xs) h = ground (arith, has-erase_ne a target xs)

pub length-erase-le : (target : ℕ) (xs : List ℕ) → length (erase target xs) ≤ length xs
unfolding erase
length-erase-le target [] = omega arith
length-erase-le target (x ∷ xs) = ground (arith, length-erase-le target xs)

-- The blocks of a chain are distinct, so a block that is taken out is gone.
pub has-erase_self :
    (m : Memory) (p target : ℕ) (xs : List ℕ) → Chain m p xs → has target (erase target xs) ≡ false
unfolding erase
has-erase_self m p target [] c = refl
has-erase_self m p target (x ∷ xs) c = elim (Bool-cases (x == target)) [
  | inl e ↦ let q : x ≡ target = ground arith in rw e (rw q at c.2)
  | inr e ↦
      let t : (target == x) ≡ false = ground arith in
      rw (e, t) (has-erase_self m (m x) target xs c.3)
]

pub erase_later :
    (x target : ℕ) (xs : List ℕ) → x ≢ target → erase target (x ∷ xs) ≡ x ∷ erase target xs
unfolding erase
erase_later x target xs ne = ground arith
