-- ===== src/Buddy/LinkedList.antt =====
-- buddy/linked_list.rs: the intrusive list of free blocks. A block is its address, its first word
-- holds the address of the next block, and 0 is the null pointer.
use vnv_heap.Base.{
  ℕ, zero, suc, Bool, true, false, Option, none, some, if◌then◌else◌, ◌==◌, ltb, ◌>>=◌,
}

abbrev pub Memory : Type 0
Memory = ℕ → ℕ

abbrev pub null : ℕ
null = 0

-- A list's head, and the memory that its blocks lie in.
pub record LinkedList : Type 0 where
  pub head : ℕ
  pub mem : Memory

-- What a `*mut *mut usize` of the code points at.
pub data Slot : Type 0 where
  at_head : Slot
  at_word : ℕ → Slot

abbrev pub update : Memory → ℕ → ℕ → Memory
update m a v b = if a == b then v else m b

abbrev pub read_slot : Slot → LinkedList → ℕ
read_slot at_head l = l.head
read_slot (at_word a) l = l.mem a

abbrev pub write_slot : Slot → ℕ → LinkedList → LinkedList
write_slot at_head v l = record l { head = v }
write_slot (at_word a) v l = record l { mem = update l.mem a v }

abbrev pub is_empty : LinkedList → Bool
is_empty l = l.head == null

-- The loop of `push`: `prev` and `curr` where the item belongs. `none` means that the fuel ran out.
unfoldable pub seek : ℕ → Memory → ℕ → Slot → ℕ → Option (Slot × ℕ)
seek zero m item prev curr = none
seek (suc fuel) m item prev curr =
    let rest = seek fuel m item (at_word curr) (m curr) in
    if curr == null then some (prev, curr) else if ltb item curr then some (prev, curr) else rest

unfoldable pub push_at : ℕ → ℕ → Slot → LinkedList → Option LinkedList
push_at fuel item slot l = do
  (prev, curr) ← seek fuel l.mem item slot (read_slot slot l)
  some (write_slot prev item (record l { mem = update l.mem item curr }))

unfoldable pub push : ℕ → ℕ → LinkedList → Option LinkedList
push fuel item l = push_at fuel item at_head l

unfoldable pub pop : LinkedList → Option ℕ × LinkedList
pop l = if is_empty l then (none, l) else (some l.head, record l { head = l.mem l.head })

-- `IterMut` with a search: the first node at which the test holds, with its predecessor.
unfoldable pub find_node : ℕ → Memory → (ℕ → Bool) → Slot → ℕ → Option (Option (Slot × ℕ))
find_node zero m test prev curr = none
find_node (suc fuel) m test prev curr =
    let rest = find_node fuel m test (at_word curr) (m curr) in
    if curr == null then some none else if test curr then some (some (prev, curr)) else rest

-- `ListNode::pop`
abbrev pub pop_node : Slot × ℕ → LinkedList → LinkedList
pop_node (prev, curr) l = write_slot prev (l.mem curr) l

-- The search loop of `dealloc` and its `block.pop()`: with the flag whether a block was removed.
unfoldable pub remove_at : ℕ → (ℕ → Bool) → Slot → LinkedList → Option (Bool × LinkedList)
remove_at fuel test slot l = do
  node ← find_node fuel l.mem test slot (read_slot slot l)
  some (elim node [ none ↦ (false, l) | some n ↦ (true, pop_node n l) ])

unfoldable pub remove_first : ℕ → (ℕ → Bool) → LinkedList → Option (Bool × LinkedList)
remove_first fuel test l = remove_at fuel test at_head l
