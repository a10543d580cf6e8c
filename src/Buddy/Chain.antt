-- ===== src/Buddy/Chain.antt =====
-- The list of addresses that a linked list stands for.
use vnv_heap.Base.{ℕ, ◌≡◌, ◌≢◌, Bool, true, false, not, ◌||◌, List, [], ◌∷◌, arith, ◌==◌}
use vnv_heap.Buddy.LinkedList.{Memory, null, Slot, at_head, at_word}

abbrev pub has : ℕ → List ℕ → Bool
has a [] = false
has a (x ∷ xs) = (a == x) || has a xs

-- From `p` the words lead through the distinct blocks `xs` to the null pointer.
abbrev pub Chain : Memory → ℕ → List ℕ → Type 0
Chain m p [] = p ≡ null
Chain m p (x ∷ xs) = (p ≡ x) × (x ≢ null) × (has x xs ≡ false) × Chain m (m x) xs

-- The slot is none of the blocks.
abbrev pub outside : Slot → List ℕ → Bool
outside at_head xs = true
outside (at_word a) xs = not (has a xs)

-- A chain survives any change of the memory that spares its blocks.
pub Chain-frame :
    {m m' : Memory} (p : ℕ) (xs : List ℕ)
    → Chain m p xs
    → ((a : ℕ) → has a xs ≡ true → m' a ≡ m a)
    → Chain m' p xs
Chain-frame p [] c same = c
Chain-frame {m} {m'} p (x ∷ xs) c same = (
  c.0,
  c.1,
  c.2,
  (let e : m' x ≡ m x = same x (ground arith) in
      rw e (Chain-frame {m = m} {m' = m'} (m x) xs c.3 (λ a h. same a (ground arith)))),
)
