-- ===== src/Buddy/Free.antt =====
-- The merge loop of `dealloc` over the lists of blocks: what one round does, and what it does to a
-- free block that stands before the pair in the sorted list.
use vnv_heap.Base.{
  ℕ, suc, ◌+◌, ◌^◌, ◌≤◌, ◌<◌, ◌≡◌, ◌≢◌, refl, ◌∙◌, subst, ==_self, true, false, inl, inr,
  Bool-cases, List, ◌∷◌, min, bit_xor, arith, ◌==◌, length, get_or,
}
use vnv_heap.Buddy.LinkedList.{null}
use vnv_heap.Buddy.Chain.{has, Chain}
use vnv_heap.Buddy.Push.{insert, has-insert}
use vnv_heap.Buddy.Remove.{
  erase, has-erase_sub, has-erase_ne, has-erase_self, erase_later, length-erase-le,
}
use vnv_heap.Buddy.Heap.{Heap, merge_round, merge_loop}
use vnv_heap.Buddy.Merge.{
  Lists, change, Holds, Kept, push_class-Kept, pop_class-Kept, remove_class-Kept,
}

-- Lists whose class `i` has only lost blocks still hold.
Kept-Holds :
    {fuel : ℕ} {h h' : Heap} {L : Lists} (i : ℕ) (xs : List ℕ)
    → Holds fuel h L
    → Kept h h' i L xs
    → ((a : ℕ) → has a xs ≡ true → has a (L i) ≡ true)
    → length xs ≤ length (L i)
    → Holds fuel h' (change L i xs)
Kept-Holds {L} i xs holds kept sub le = record {
  chain = λ j lt. kept.chain j (rw (← kept.classes) lt);
  apart = λ j k a ne m. ground (
    arith,
    holds.apart j k a ne,
    holds.apart i k a,
    holds.apart j i a,
    sub a,
    Bool-cases (has a xs),
  );
  enough = λ j. ground (arith, holds.enough j, holds.enough i);
}

-- The lists after a merge: class `i` without the pair, and the merged block in the class above.
abbrev pub merged : Lists → ℕ → List ℕ → ℕ → Lists
merged L i rest block = change (change L i rest) (i + 1) (insert block (L (i + 1)))

merged-eq :
    (L : Lists) (i : ℕ) (xs rest : List ℕ) (b j : ℕ)
    → change
        (change (change L i xs) i rest)
        (i + 1)
        (insert b (change (change L i xs) i rest (i + 1)))
        j
      ≡ merged L i rest b j
merged-eq L i xs rest b j =
    let t : (i == i + 1) ≡ false = ground arith in
    rw t (elim (Bool-cases (i + 1 == j)) [
      | inl e ↦ rw e refl
      | inr ne ↦ rw ne (elim (Bool-cases (i == j)) [ inl q ↦ rw q refl | inr q ↦ rw q refl ])
    ])

module _ {fuel : ℕ} {h : Heap} {L : Lists} (holds : Holds fuel h L) (i : ℕ)
    (inside : i + 1 < length h.free_list) (block : ℕ) where
  abbrev buddy : ℕ
  buddy = bit_xor block (2 ^ i)

  -- One round of the merge loop below the last class, over chains of blocks, where the buddy is
  -- free and the lower of the pair was free in the class and is no more in its rest: it takes the
  -- buddy out of class `i`, pops the first block `x` that is left there, whichever that is, pushes
  -- the lower of the pair to the class above, and goes on with that block.
  pub merge_loop-round :
      (n x low : ℕ) (rest : List ℕ)
      → min block buddy ≡ low
      → has buddy (L i) ≡ true
      → erase buddy (L i) ≡ x ∷ rest
      → low ≢ null
      → has low rest ≡ false
      → has low (L i) ≡ true
      → (h' : Heap) × (merge_loop fuel (suc n) i block h ≡ merge_loop fuel n (i + 1) low h')
        × (length h'.free_list ≡ length h.free_list)
        × ((j : ℕ)
            → j < length h.free_list
            → Chain h'.mem (get_or h'.free_list j 0) (merged L i rest low j))
  unfolding merge_loop merge_round
  merge_loop-round n x low rest elow found e nn out mem =
      let (h₁, e₁, k₁) = remove_class-Kept holds i (omega arith) buddy in
      let L₁ : Lists = change L i (erase buddy (L i)) in
      let v₁ : Holds fuel h₁ L₁ =
        Kept-Holds i _ holds k₁ (λ a m. has-erase_sub a buddy (L i) m)
          (length-erase-le buddy (L i)) in
      let at_i : L₁ i ≡ x ∷ rest = rw (==_self i) e in
      let (h₂, e₂, k₂) = pop_class-Kept v₁ i (rw k₁.classes (omega arith)) x rest at_i in
      let v₂ : Holds fuel h₂ (change L₁ i rest) =
        Kept-Holds i rest v₁ k₂ (λ a m. rw at_i (ground (arith, m))) (rw at_i (omega arith)) in
      let fresh : (j : ℕ) → has low (change L₁ i rest j) ≡ false =
        (λ j. ground (arith, holds.apart i j low)) in
      let (h₃, e₃, k₃) =
        push_class-Kept v₂ (i + 1) (rw (k₂.classes, k₁.classes) inside) low nn fresh in
      (
        h₃,
        rw (e₁, found, elow, e₂, e₃) refl,
        k₃.classes ∙ k₂.classes ∙ k₁.classes,
        λ j lt.
            subst (Chain h₃.mem (get_or h₃.free_list j 0))
              (merged-eq L i (erase buddy (L i)) rest low j)
              (k₃.chain j (rw (k₂.classes, k₁.classes) lt)),
      )

  -- The list is sorted, so the block that the round pops is the lowest one. Where that is a third
  -- block `x`, and the buddy lies below the block, the round leaves the block in its class, puts
  -- the pair as one block into the class above, and `x` is in no list any more: the words of the
  -- block are then in two free blocks, and those of `x` are lost.
  pub merge_loop-overlap :
      (n x : ℕ) (ys : List ℕ)
      → L i ≡ x ∷ ys
      → x ≢ block
      → x ≢ buddy
      → has block ys ≡ true
      → has buddy ys ≡ true
      → buddy < block
      → buddy ≢ null
      → (h' : Heap) × (L' : Lists) × (merge_loop fuel (suc n) i block h
          ≡ merge_loop fuel n (i + 1) buddy h')
        × ((j : ℕ) → j < length h.free_list → Chain h'.mem (get_or h'.free_list j 0) (L' j))
        × (has block (L' i) ≡ true)
        × (has buddy (L' (i + 1)) ≡ true)
        × ((j : ℕ) → has x (L' j) ≡ false)
  merge_loop-overlap n x ys e xb xd hb hd lt nn =
      let low : min block buddy ≡ buddy = omega arith in
      let c = rw e at (holds.chain i (omega arith)) in
      let first : erase buddy (L i) ≡ x ∷ erase buddy ys = rw e (erase_later x buddy ys xd) in
      let gone = has-erase_self h.mem (h.mem x) buddy ys c.3 in
      let here : has buddy (L i) ≡ true = rw e (ground arith) in
      let (h', step, classes, chains) =
        merge_loop-round n x buddy (erase buddy ys) low here first nn gone here in
      (
        h',
        merged L i (erase buddy ys) buddy,
        step,
        chains,
        stays (has-erase_ne block buddy ys (omega arith) ∙ hb),
        up,
        λ j. lost j c.2 (holds.apart i j x),
      )
    where
      stays :
          has block (erase buddy ys) ≡ true → has block (merged L i (erase buddy ys) buddy i) ≡ true
      stays q =
          let t : (i + 1 == i) ≡ false = ground arith in
          let s : (i == i) ≡ true = ==_self i in rw (t, s) q

      up : has buddy (merged L i (erase buddy ys) buddy (i + 1)) ≡ true
      up = rw (==_self (i + 1), has-insert buddy buddy (L (i + 1)), ==_self buddy) refl

      none_of_rest : has x ys ≡ false → has x (erase buddy ys) ≡ false
      none_of_rest q = has-erase_ne x buddy ys xd ∙ q

      lost :
          (j : ℕ)
          → has x ys ≡ false
          → (i ≢ j → has x (L i) ≡ true → has x (L j) ≡ false)
          → has x (merged L i (erase buddy ys) buddy j) ≡ false
      lost j q apart =
          let at_i : has x (L i) ≡ true = rw (e, ==_self x) refl in
          elim (Bool-cases (i + 1 == j)) [
            | inl t ↦
                rw (t, has-insert x buddy (L (i + 1)))
                  (ground (arith, holds.apart i (i + 1) x (omega arith) at_i))
            | inr f ↦ rw f (elim (Bool-cases (i == j)) [
              | inl t ↦ rw t (none_of_rest q)
              | inr g ↦ rw g (apart (ground arith) at_i)
            ])
          ]
