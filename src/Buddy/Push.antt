-- ===== src/Buddy/Push.antt =====
-- `push` inserts a block in the order of the addresses.
use vnv_heap.Base.{
  ℕ, zero, suc, ◌≤◌, ◌<◌, ◌≡◌, ◌≢◌, refl, ◌∙◌, true, false, ◌||◌, List, [], ◌∷◌, arith,
  if◌then◌else◌, ◌==◌, ltb, length, some, inl, inr, Bool-cases, ==_self,
}
use vnv_heap.Buddy.LinkedList.{
  null, LinkedList, Slot, at_head, at_word, update, read_slot, write_slot, seek, push_at, push,
}
use vnv_heap.Buddy.Chain.{has, Chain, outside, Chain-frame}

unfoldable pub insert : ℕ → List ℕ → List ℕ
insert item [] = item ∷ []
insert item (x ∷ xs) = if ltb item x then item ∷ x ∷ xs else x ∷ insert item xs

-- The list after the two writes of `push`.
spliced : ℕ → List ℕ → Slot → LinkedList → LinkedList
spliced item [] slot l = write_slot slot item (record l { mem = update l.mem item null })
spliced item (x ∷ xs) slot l =
    if ltb item x
    then write_slot slot item (record l { mem = update l.mem item x })
    else spliced item xs (at_word x) l

push_at-spliced :
    (item : ℕ) (xs : List ℕ) (fuel : ℕ) (slot : Slot) (l : LinkedList)
    → Chain l.mem (read_slot slot l) xs
    → length xs < fuel
    → push_at fuel item slot l ≡ some (spliced item xs slot l)
unfolding push_at spliced seek
push_at-spliced item xs zero slot l c f = absurd (omega arith)
push_at-spliced item [] (suc fuel) slot l c f = rw c refl
push_at-spliced item (x ∷ xs) (suc fuel) slot l c f =
    let nz : (x == null) ≡ false = ground arith in
    elim (Bool-cases (ltb item x)) [
      | inl here ↦ rw (c.0, nz, here) refl
      | inr later ↦
          rw (c.0, nz, later) (push_at-spliced item xs fuel (at_word x) l c.3 (omega arith))
    ]

pub has-insert : (a item : ℕ) (xs : List ℕ) → has a (insert item xs) ≡ ((a == item) || has a xs)
unfolding insert
has-insert a item [] = refl
has-insert a item (x ∷ xs) = ground (arith, has-insert a item xs)

-- Only the slot, the item and the words of the chain may change.
spliced-same :
    (item : ℕ) (xs : List ℕ) (slot : Slot) (l : LinkedList) (a : ℕ)
    → has a (item ∷ xs) ≡ false
    → outside slot (a ∷ []) ≡ true
    → (spliced item xs slot l).mem a ≡ l.mem a
unfolding spliced
spliced-same item [] at_head l a out apart = ground arith
spliced-same item [] (at_word b) l a out apart = ground arith
spliced-same item (x ∷ xs) at_head l a out apart =
    ground (arith, spliced-same item xs (at_word x) l a)
spliced-same item (x ∷ xs) (at_word b) l a out apart =
    ground (arith, spliced-same item xs (at_word x) l a)

spliced-head :
    (item : ℕ) (xs : List ℕ) (b : ℕ) (l : LinkedList)
    → (spliced item xs (at_word b) l).head ≡ l.head
unfolding spliced
spliced-head item [] b l = refl
spliced-head item (x ∷ xs) b l = ground (arith, spliced-head item xs x l)

-- The two writes of `push` put the item between the slot and the rest.
splice_here :
    (item : ℕ) (slot : Slot) (l : LinkedList) (p : ℕ) (xs : List ℕ)
    → item ≢ null
    → Chain l.mem p xs
    → has item xs ≡ false
    → outside slot (item ∷ xs) ≡ true
    → let l' = write_slot slot item (record l { mem = update l.mem item p }) in
      Chain l'.mem (read_slot slot l') (item ∷ xs)
splice_here item at_head l p xs nn c fresh apart =
    (refl, nn, fresh, rw (==_self item) (Chain-frame p xs c (λ a h. ground arith)))
splice_here item (at_word b) l p xs nn c fresh apart =
    let ne : (b == item) ≡ false = ground arith in
    (
      rw (==_self b) refl,
      nn,
      fresh,
      rw (ne, ==_self item) (Chain-frame p xs c (λ a h. ground arith)),
    )

later_read :
    (item x : ℕ) (xs : List ℕ) (slot : Slot) (l : LinkedList)
    → read_slot slot l ≡ x
    → outside slot (item ∷ x ∷ xs) ≡ true
    → read_slot slot (spliced item xs (at_word x) l) ≡ x
later_read item x xs at_head l e apart = spliced-head item xs x l ∙ e
later_read item x xs (at_word b) l e apart =
    spliced-same item xs (at_word x) l b (ground arith) (ground arith) ∙ e

spliced-Chain :
    (item : ℕ) (xs : List ℕ) (slot : Slot) (l : LinkedList)
    → item ≢ null
    → Chain l.mem (read_slot slot l) xs
    → has item xs ≡ false
    → outside slot (item ∷ xs) ≡ true
    → Chain (spliced item xs slot l).mem (read_slot slot (spliced item xs slot l)) (insert item xs)
unfolding spliced insert
spliced-Chain item [] slot l nn c fresh apart = splice_here item slot l null [] nn refl fresh apart
spliced-Chain item (x ∷ xs) slot l nn c fresh apart = elim (Bool-cases (ltb item x)) [
  | inl here ↦ rw here (splice_here item slot l x (x ∷ xs) nn (refl, c.1, c.2, c.3) fresh apart)
  | inr later ↦
      let ne : (x == item) ≡ false = ground arith in
      rw later (
        later_read item x xs slot l c.0 apart,
        c.1,
        has-insert x item xs ∙ ground arith,
        spliced-Chain item xs (at_word x) l nn c.3 (ground arith) (ground arith),
      )
]

-- Over a chain of distinct blocks, with fuel for each of them and one round more, `push` of a new
-- block succeeds, and the list then is the chain with the block inserted before the first block of
-- a higher address. No word but the block's and the chain's changes.
pub push-Chain :
    (item fuel : ℕ) (xs : List ℕ) (l : LinkedList)
    → item ≢ null
    → Chain l.mem l.head xs
    → has item xs ≡ false
    → length xs < fuel
    → (l' : LinkedList) × (push fuel item l ≡ some l')
      × Chain l'.mem l'.head (insert item xs)
      × ((a : ℕ) → has a (item ∷ xs) ≡ false → l'.mem a ≡ l.mem a)
unfolding push
push-Chain item fuel xs l nn c fresh f = (
  spliced item xs at_head l,
  push_at-spliced item xs fuel at_head l c f,
  spliced-Chain item xs at_head l nn c fresh refl,
  λ a out. spliced-same item xs at_head l a out refl,
)

-- No address of the list is below `low`, and the addresses rise.
abbrev pub SortedFrom : ℕ → List ℕ → Type 0
SortedFrom low [] = Unit
SortedFrom low (x ∷ xs) = (low ≤ x) × SortedFrom x xs

pub insert-SortedFrom :
    (low item : ℕ) (xs : List ℕ) → low ≤ item → SortedFrom low xs → SortedFrom low (insert item xs)
unfolding insert
insert-SortedFrom low item [] h s = (h, tt)
insert-SortedFrom low item (x ∷ xs) h s = elim (Bool-cases (ltb item x)) [
  | inl here ↦ rw here (h, (ground arith, s.1))
  | inr later ↦ rw later (s.0, insert-SortedFrom x item xs (ground arith) s.1)
]
