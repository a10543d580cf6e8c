-- ===== src/Buddy/Tests.antt =====
-- The theorems on `buddy/linked_list.rs` and `buddy/internal.rs` at a heap of five classes, whose
-- class of 8-byte blocks holds the blocks 16, 48 and 56.
use vnv_heap.Base.{
  ℕ, zero, suc, ◌<◌, ◌≡◌, refl, true, false, List, [], ◌∷◌, some, arith, if◌then◌else◌, ◌==◌,
  length, get_or,
}
use vnv_heap.Buddy.LinkedList.{Memory, LinkedList, push, remove_first}
use vnv_heap.Buddy.Chain.{has, Chain}
use vnv_heap.Buddy.Push.{insert, push-Chain}
use vnv_heap.Buddy.Remove.{erase, is, remove_first-Chain}
use vnv_heap.Buddy.Heap.{Heap, merge_loop}
use vnv_heap.Buddy.Merge.{Lists, Holds}
use vnv_heap.Buddy.Free.{merged, merge_loop-round, merge_loop-overlap}

abbrev words : Memory
words a = if a == 16 then 48 else if a == 48 then 56 else 0

abbrev three : LinkedList
three = record { head = 16; mem = words }

abbrev blocks : List ℕ
blocks = 16 ∷ 48 ∷ 56 ∷ []

abbrev five_classes : Heap
five_classes = record { free_list = 0 ∷ 0 ∷ 0 ∷ 16 ∷ 0 ∷ []; mem = words }

abbrev lists : Lists
lists i = if i == 3 then blocks else []

three-Chain : Chain words 16 blocks
three-Chain = (refl, omega arith, refl, (refl, omega arith, refl, (refl, omega arith, refl, refl)))

lists-Chain : (i : ℕ) → i < 5 → Chain words (get_or (0 ∷ 0 ∷ 0 ∷ 16 ∷ 0 ∷ []) i 0) (lists i)
lists-Chain zero h = refl
lists-Chain (suc zero) h = refl
lists-Chain (suc (suc zero)) h = refl
lists-Chain (suc (suc (suc zero))) h = three-Chain
lists-Chain (suc (suc (suc (suc zero)))) h = refl
lists-Chain (suc (suc (suc (suc (suc i))))) h = absurd (omega arith)

five_classes-Holds : Holds 5 five_classes lists
five_classes-Holds = record {
  chain = lists-Chain;
  apart = λ i j a ne m. ground arith;
  enough = λ i. ground arith;
}

push-Chain_example :
    (l' : LinkedList) × (push 4 24 three ≡ some l')
    × Chain l'.mem l'.head (insert 24 blocks)
    × ((a : ℕ) → has a (24 ∷ blocks) ≡ false → l'.mem a ≡ words a)
push-Chain_example = push-Chain 24 4 blocks three (omega arith) three-Chain refl (omega arith)

remove_first-Chain_example :
    (l' : LinkedList) × (remove_first 4 (is 48) three ≡ some (has 48 blocks, l'))
    × Chain l'.mem l'.head (erase 48 blocks)
    × ((a : ℕ) → has a blocks ≡ false → l'.mem a ≡ words a)
remove_first-Chain_example = remove_first-Chain 48 4 blocks three three-Chain (omega arith)

-- The block 56 with its buddy 48, where the block 16 is popped in place of the block 56.
merge_loop-round_example :
    (h' : Heap) × (merge_loop 5 1 3 56 five_classes ≡ merge_loop 5 0 4 48 h')
    × (length h'.free_list ≡ 5)
    × ((j : ℕ) → j < 5 → Chain h'.mem (get_or h'.free_list j 0) (merged lists 3 (56 ∷ []) 48 j))
unfolding erase
merge_loop-round_example =
    merge_loop-round five_classes-Holds 3 (omega arith) 56 0 16 48 (56 ∷ []) refl refl refl
      (omega arith) refl refl

merge_loop-overlap_example :
    (h' : Heap) × (L' : Lists) × (merge_loop 5 1 3 56 five_classes ≡ merge_loop 5 0 4 48 h')
    × ((j : ℕ) → j < 5 → Chain h'.mem (get_or h'.free_list j 0) (L' j))
    × (has 56 (L' 3) ≡ true)
    × (has 48 (L' 4) ≡ true)
    × ((j : ℕ) → has 16 (L' j) ≡ false)
merge_loop-overlap_example =
    merge_loop-overlap five_classes-Holds 3 (omega arith) 56 0 16 (48 ∷ 56 ∷ []) refl (omega arith)
      (omega arith) refl refl (omega arith) (omega arith)
