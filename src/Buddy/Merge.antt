-- ===== src/Buddy/Merge.antt =====
-- The free lists of a heap as lists of addresses, and one round of the merge loop over them.
use native.Mathlib.Decide.{ℕ_discrete}
use vnv_heap.Base.{
  ℕ, ◌<◌, ◌≡◌, ◌≢◌, refl, sym, true, false, some, List, ◌∷◌, arith, if◌then◌else◌, ◌==◌, length,
  get_or, get_elem?-eq-get_or, get_or-set_self, get_or-set_ne, length-set,
}
use vnv_heap.Base.Outcome.{ok}
use vnv_heap.Buddy.LinkedList.{null, LinkedList, pop}
use vnv_heap.Buddy.Chain.{has, Chain, Chain-frame}
use vnv_heap.Buddy.Push.{insert, push-Chain}
use vnv_heap.Buddy.Remove.{erase, pop-Chain, remove_first-Chain}
use vnv_heap.Buddy.Heap.{Heap, put_list, push_class, pop_class, remove_class}

-- The blocks of each class.
abbrev pub Lists : Type 0
Lists = ℕ → List ℕ

abbrev pub change : Lists → ℕ → List ℕ → Lists
change L i xs j = if i == j then xs else L j

-- The list of each class is the chain of its blocks, and no block is in two classes. `fuel` is
-- enough for each list and one more block.
pub record Holds (fuel : ℕ) (h : Heap) (L : Lists) : Type 0 where
  pub chain : (i : ℕ) → i < length h.free_list → Chain h.mem (get_or h.free_list i 0) (L i)
  pub apart : (i j a : ℕ) → i ≢ j → has a (L i) ≡ true → has a (L j) ≡ false
  pub enough : (i : ℕ) → length (L i) < fuel

-- What an operation on class `i` gives: the new lists hold, up to the fuel.
pub record Kept (h h' : Heap) (i : ℕ) (L : Lists) (xs : List ℕ) : Type 0 where
  pub classes : length h'.free_list ≡ length h.free_list
  pub chain :
      (j : ℕ) → j < length h.free_list → Chain h'.mem (get_or h'.free_list j 0) (change L i xs j)

module _ {fuel : ℕ} {h : Heap} {L : Lists} (holds : Holds fuel h L) (i : ℕ)
    (inside : i < length h.free_list) where
  abbrev at_i : LinkedList
  at_i = record { head = get_or h.free_list i 0; mem = h.mem }

  -- A list operation that changes only words of its own list, or of a block in no list.
  put-Kept :
      (l' : LinkedList) (xs : List ℕ)
      → Chain l'.mem l'.head xs
      → ((j a : ℕ) → j ≢ i → has a (L j) ≡ true → l'.mem a ≡ h.mem a)
      → Kept h (put_list i l' h) i L xs
  put-Kept l' xs c same = record {
    classes = length-set h.free_list i l'.head;
    chain = λ j lt. elim (ℕ_discrete i j) [
      | yes e ↦
          let t : (i == j) ≡ true = ground arith in
          rw (t, ← e, get_or-set_self h.free_list i l'.head 0 inside) c
      | no ne ↦
          let t : (i == j) ≡ false = ground arith in
          rw (t, get_or-set_ne h.free_list l'.head 0 ne)
            (Chain-frame (get_or h.free_list j 0) (L j) (holds.chain j lt)
              (λ a m. same j a (λ e. ne (sym e)) m))
    ];
  }

  -- Over chains of blocks, `push` on a class of the heap of a block that is not null and in no
  -- list inserts it there.
  pub push_class-Kept :
      (block : ℕ)
      → block ≢ null
      → ((j : ℕ) → has block (L j) ≡ false)
      → (h' : Heap) × (push_class fuel i block h ≡ ok h') × Kept h h' i L (insert block (L i))
  unfolding push_class
  push_class-Kept block nn fresh =
      let (l', e, c, same) =
        push-Chain block fuel (L i) at_i nn (holds.chain i inside) (fresh i) (holds.enough i) in
      (
        put_list i l' h,
        rw (get_elem?-eq-get_or h.free_list i 0 inside, e) refl,
        put-Kept l' (insert block (L i)) c
            (λ j a ne m. same a (ground (arith, holds.apart j i a ne m, fresh j))),
      )

  -- Over chains of blocks, `pop` on a class of the heap with a block takes its first one, and
  -- leaves the other classes.
  pub pop_class-Kept :
      (x : ℕ) (xs : List ℕ)
      → L i ≡ x ∷ xs
      → (h' : Heap) × (pop_class i h ≡ ok (some x, h')) × Kept h h' i L xs
  unfolding pop_class
  pop_class-Kept x xs e =
      let p = pop-Chain x xs at_i (rw e at (holds.chain i inside)) in
      (
        put_list i (pop at_i).1 h,
        rw (get_elem?-eq-get_or h.free_list i 0 inside, p.0) refl,
        put-Kept (pop at_i).1 xs p.1 (λ j a ne m. rw p.2 refl),
      )

  -- Over chains of blocks, the search of `dealloc` tells whether the block is in class `i`, and
  -- takes it out.
  pub remove_class-Kept :
      (block : ℕ)
      → (h' : Heap) × (remove_class fuel i block h ≡ ok (has block (L i), h'))
        × Kept h h' i L (erase block (L i))
  unfolding remove_class
  remove_class-Kept block =
      let (l', e, c, same) =
        remove_first-Chain block fuel (L i) at_i (holds.chain i inside) (holds.enough i) in
      (
        put_list i l' h,
        rw (get_elem?-eq-get_or h.free_list i 0 inside, e) refl,
        put-Kept l' (erase block (L i)) c (λ j a ne m. same a (holds.apart j i a ne m)),
      )
