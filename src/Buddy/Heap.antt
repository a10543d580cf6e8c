-- ===== src/Buddy/Heap.antt =====
-- buddy/internal.rs: `Heap`, the free lists of all classes over one memory. `fuel` bounds the walks
-- through a list.
use vnv_heap.Base.{
  ℕ, zero, suc, ◌+◌, ◌-◌, ◌*◌, ◌/◌, ◌%◌, ◌^◌, Bool, Option, none, some, List, min, max, bit_and,
  bit_xor, if◌then◌else◌, ◌==◌, ltb, leb, length, get_elem?, set, replicate,
}
use vnv_heap.Base.Outcome.{Outcome, ok, err, panic, out_of_fuel, or_panic, or_out_of_fuel, ◌>>=◌}
use vnv_heap.Base.Words.{usize_mod, usize_size, add_usize, sub_usize}
use vnv_heap.Buddy.LinkedList.{Memory, null, LinkedList, is_empty, push, pop, remove_first}

-- The array `free_list` as the heads of its lists; `ORDER` is its length.
pub record Heap : Type 0 where
  pub free_list : List ℕ
  pub mem : Memory

unfoldable pub new : ℕ → Memory → Heap
new order mem = record { free_list = replicate order null; mem = mem }

-- `self.free_list[i]`
abbrev pub get_list : ℕ → Heap → Outcome LinkedList
get_list i h =
    or_panic (get_elem? h.free_list i) >>= λ head. ok (record { head = head; mem = h.mem })

abbrev pub put_list : ℕ → LinkedList → Heap → Heap
put_list i l h = record { free_list = set h.free_list i l.head; mem = l.mem }

-- `self.free_list[i].push(block)`
unfoldable pub push_class : ℕ → ℕ → ℕ → Heap → Outcome Heap
push_class fuel i block h = do
  l ← get_list i h
  l' ← or_out_of_fuel (push fuel block l)
  ok (put_list i l' h)

-- `self.free_list[i].pop()`
unfoldable pub pop_class : ℕ → Heap → Outcome (Option ℕ × Heap)
pop_class i h = do l ← get_list i h; let (block, l') = pop l; ok (block, put_list i l' h)

-- The search for the buddy in `dealloc`, with its flag.
unfoldable pub remove_class : ℕ → ℕ → ℕ → Heap → Outcome (Bool × Heap)
remove_class fuel i block h = do
  l ← get_list i h
  (flag, l') ← or_out_of_fuel (remove_first fuel (λ b. b == block) l)
  ok (flag, put_list i l' h)

-- `usize::next_power_of_two`, `trailing_zeros` and `prev_power_of_two`.
unfoldable pub power_from : ℕ → ℕ → ℕ → ℕ
power_from zero p n = p
power_from (suc k) p n = let rest = power_from k (2 * p) n in if leb n p then p else rest

unfoldable pub next_power_of_two : ℕ → ℕ
next_power_of_two n = power_from 64 1 n

unfoldable pub zeros_from : ℕ → ℕ → ℕ
zeros_from zero n = 0
zeros_from (suc k) n = let rest = suc (zeros_from k (n / 2)) in if n % 2 == 1 then 0 else rest

unfoldable pub trailing_zeros : ℕ → ℕ
trailing_zeros n = zeros_from 64 n

unfoldable pub prev_from : ℕ → ℕ → ℕ → ℕ
prev_from zero p n = p
prev_from (suc k) p n = let rest = prev_from k (2 * p) n in if ltb n (2 * p) then p else rest

unfoldable pub prev_power_of_two : ℕ → ℕ
prev_power_of_two n = prev_from 64 1 n

unfoldable pub class_size : ℕ → ℕ → ℕ
class_size size align = max (next_power_of_two size) (max align usize_size)

unfoldable pub class_of : ℕ → ℕ → ℕ
class_of size align = trailing_zeros (class_size size align)

-- The loop of `add_to_heap`. `lowbit` is the lowest bit of the start.
unfoldable pub add_loop : ℕ → ℕ → ℕ → ℕ → Heap → Outcome Heap
add_loop fuel zero start end h = out_of_fuel
add_loop fuel (suc n) start end h =
    let lowbit = bit_and start (add_usize (usize_mod - 1 - start) 1) in
    let size = min lowbit (prev_power_of_two (sub_usize end start)) in
    let rest = (do
      h' ← push_class fuel (trailing_zeros size) start h
      add_loop fuel n (add_usize start size) end h') in
    if leb (add_usize start usize_size) end then rest else ok h

-- Both ends are rounded to a multiple of the word size.
unfoldable pub add_to_heap : ℕ → ℕ → ℕ → ℕ → Heap → Outcome Heap
add_to_heap fuel rounds start end h =
    let start' = bit_and (sub_usize (add_usize start usize_size) 1) (usize_mod - usize_size) in
    let end' = bit_and end (usize_mod - usize_size) in
    let rest = add_loop fuel rounds start' end' h in if leb start' end' then rest else panic

unfoldable pub init : ℕ → ℕ → ℕ → ℕ → Heap → Outcome Heap
init fuel rounds start size h = add_to_heap fuel rounds start (add_usize start size) h

-- `for j in (class + 1..i + 1).rev()`: the rounds that are left, and the class below `j`.
unfoldable pub split : ℕ → ℕ → ℕ → Heap → Outcome Heap
split fuel zero below h = ok h
split fuel (suc n) below h = do
  (block, h₁) ← pop_class (below + 1) h
  elim block [
    | none ↦ err
    | some b ↦ do
      h₂ ← push_class fuel below (add_usize b (2 ^ below)) h₁
      h₃ ← push_class fuel below b h₂
      split fuel n (below - 1) h₃
  ]

-- The `expect` panics, and `NonNull::new` refuses the null pointer.
unfoldable pub take_block : ℕ → Heap → Outcome (ℕ × Heap)
take_block class h = do
  (block, h') ← pop_class class h
  elim block [ none ↦ panic | some b ↦ if b == null then err else ok (b, h') ]

-- `for i in class..self.free_list.len()`
unfoldable pub alloc_loop : ℕ → ℕ → ℕ → ℕ → Heap → Outcome (ℕ × Heap)
alloc_loop fuel class zero i h = err
alloc_loop fuel class (suc n) i h =
    let rest = alloc_loop fuel class n (i + 1) h in
    let found = (do h' ← split fuel (i - class) (i - 1) h; take_block class h') in
    do l ← get_list i h; if is_empty l then rest else found

unfoldable pub alloc : ℕ → ℕ → ℕ → Heap → Outcome (ℕ × Heap)
alloc fuel size align h =
    let class = class_of size align in alloc_loop fuel class (length h.free_list - class) class h

-- One round of the merge loop after its search has found the buddy: the block is popped, and the
-- merged block goes to the next class.
unfoldable pub merge_round : ℕ → ℕ → ℕ → ℕ → Heap → Outcome Heap
merge_round fuel class block buddy h = do
  (_, h₁) ← pop_class class h
  push_class fuel (class + 1) (min block buddy) h₁

-- `while current_class < self.free_list.len() - 1`, with the rounds that are left.
unfoldable pub merge_loop : ℕ → ℕ → ℕ → ℕ → Heap → Outcome Heap
merge_loop fuel zero class block h = ok h
merge_loop fuel (suc n) class block h =
    let buddy = bit_xor block (2 ^ class) in
    do
      (flag, h₁) ← remove_class fuel class buddy h
      let rest = do
        h₂ ← merge_round fuel class block buddy h₁
        merge_loop fuel n (class + 1) (min block buddy) h₂
      if flag then rest else ok h₁

unfoldable pub dealloc : ℕ → ℕ → ℕ → ℕ → Heap → Outcome Heap
dealloc fuel ptr size align h = do
  let class = class_of size align
  h₁ ← push_class fuel class ptr h
  merge_loop fuel (length h.free_list - 1 - class) class ptr h₁
