-- ===== src/NvList/State.antt =====
-- `NonResidentLinkedList` and its iterator. A call gives its result, the new list and the new
-- storage.
use vnv_heap.Base.{
  ℕ, zero, suc, ◌+◌, ◌-◌, Bool, true, false, not, List, ◌++◌, Option, none, some, if◌then◌else◌,
  ◌==◌, take, drop,
}
use vnv_heap.Base.Outcome.{Outcome, ok, err, panic, out_of_fuel}
use vnv_heap.Base.Words.{usize_mod, usize_size, add_usize}
use vnv_heap.Storage.Device.{PersistentStorageModule}
use vnv_heap.Storage.Encoding.{Layout, to_bytes, from_bytes}

-- `NEXT_NULL`
abbrev pub next_null : ℕ
next_null = usize_mod - 1

-- `NonResidentLinkedListItem`; its field `data` is a reserved word here.
pub record Item (T : Type 0) : Type 0 where
  pub next : ℕ
  pub value : T

-- A list with the storage that its items lie in.
pub record NonResidentLinkedList (S : Type 0) : Type 0 where
  pub head : ℕ
  pub storage : S

-- The iterator, with the storage that its calls take.
pub record Iter (S : Type 0) : Type 0 where
  pub curr : ℕ
  pub storage : S

unfoldable pub iter : {S : Type 0} → NonResidentLinkedList S → Iter S
iter l = record { curr = l.head; storage = l.storage }

unfoldable pub new : {S : Type 0} → S → NonResidentLinkedList S
new s = record { head = next_null; storage = s }

abbrev pub is_empty : {S : Type 0} → NonResidentLinkedList S → Bool
is_empty l = l.head == next_null

-- `get_data_offset` of the list and of `NonResidentLinkedListItemLocation`.
unfoldable pub get_data_offset : ℕ → ℕ
get_data_offset base_offset = add_usize base_offset usize_size

-- The layout is that of the data with the padding that follows it in the item.
module _ {S T : Type 0} (d : PersistentStorageModule S) (t : Layout T) where
  abbrev pub total_item_size : ℕ
  total_item_size = usize_size + t.size

  -- `#[repr(C)]`: `next` lies in front of the data.
  abbrev pub item_bytes : Item T → List ℕ
  item_bytes item = to_bytes usize_size item.next ++ t.encode item.value

  abbrev pub item_of : List ℕ → Item T
  item_of bytes = record {
    next = from_bytes (take usize_size bytes);
    value = t.decode (drop usize_size bytes);
  }

  -- `read_storage_data` of an item.
  abbrev pub read_item : ℕ → S → Option (Item T) × S
  read_item offset s =
      let r = d.read offset total_item_size s in
      (elim r.0 [ none ↦ none | some bytes ↦ some (item_of bytes) ], r.1)

  unfoldable pub push :
      ℕ → T → NonResidentLinkedList S → Outcome (Unit {0}) × NonResidentLinkedList S
  push item_offset value l =
      let r =
        d.write item_offset (item_bytes (record { next = l.head; value = value })) l.storage in
      if r.0
      then (ok tt, record { head = item_offset; storage = r.1 })
      else (err, record l { storage = r.1 })

  unfoldable pub pop : NonResidentLinkedList S → Outcome (Option (ℕ × T)) × NonResidentLinkedList S
  pop l =
      let r = read_item l.head l.storage in
      let advanced : Outcome (Option (ℕ × T)) × NonResidentLinkedList S = elim r.0 [
        | none ↦ (err, record l { storage = r.1 })
        | some item ↦ (
          ok (some (l.head, item.value)),
          record { head = item.next; storage = d.forget_region l.head total_item_size r.1 },
        )
      ] in
      if is_empty l then (ok none, l) else advanced

  unfoldable pub next : Iter S → Outcome (Option (ℕ × T)) × Iter S
  next i =
      let r = read_item i.curr i.storage in
      let advanced : Outcome (Option (ℕ × T)) × Iter S = elim r.0 [
        | none ↦ (err, record i { storage = r.1 })
        | some item ↦ (ok (some (i.curr, item.value)), record { curr = item.next; storage = r.1 })
      ] in
      if i.curr == next_null then (ok none, i) else advanced

  -- One round of `Iter::find` after its call of `next`, and its other rounds.
  abbrev pub find_round :
      (ℕ → T → Bool)
      → Outcome (Option (ℕ × T)) × Iter S
      → Outcome (Option (ℕ × T)) × Iter S
      → Outcome (Option (ℕ × T)) × Iter S
  find_round f r rest = elim r.0 [
    | ok found ↦ elim found [
      | none ↦ (ok none, r.1)
      | some e ↦ if f e.0 e.1 then (ok (some e), r.1) else rest
    ]
    | err ↦ (err, r.1)
    | panic ↦ (panic, r.1)
    | out_of_fuel ↦ (out_of_fuel, r.1)
  ]

  -- The loop of `Iter::find`.
  unfoldable pub find : ℕ → (ℕ → T → Bool) → Iter S → Outcome (Option (ℕ × T)) × Iter S
  find zero f i = (out_of_fuel, i)
  find (suc fuel) f i = let r = next i in find_round f r (find fuel f r.1)

  -- `Iter::all`
  unfoldable pub all : ℕ → (ℕ → T → Bool) → Iter S → Outcome Bool × Iter S
  all fuel f i =
      let r = find fuel (λ x y. not (f x y)) i in
      (
        (elim r.0 [
          | ok found ↦ ok (elim found [ none ↦ true | some e ↦ false ])
          | err ↦ err
          | panic ↦ panic
          | out_of_fuel ↦ out_of_fuel
        ]),
        r.1,
      )

  -- Taking the item at `curr` out of the list: the flag is whether the write to the previous item
  -- succeeded.
  unfoldable pub unlink : ℕ → ℕ → ℕ → NonResidentLinkedList S → Bool × NonResidentLinkedList S
  unlink prev curr after l =
      let w = d.write prev (to_bytes usize_size after) l.storage in
      let u : Bool × NonResidentLinkedList S =
        if prev == next_null
        then (true, record { head = after; storage = l.storage })
        else (w.0, record l { storage = w.1 }) in
      let l' : NonResidentLinkedList S = u.1 in
      if u.0
      then (true, record l' { storage = d.forget_region curr total_item_size l'.storage })
      else (false, l')

  -- One round of `remove_where` after it has read the item; `again` is its other rounds.
  unfoldable pub remove_round :
      Bool
      → (ℕ → T → Bool)
      → ℕ
      → ℕ
      → ℕ
      → NonResidentLinkedList S
      → (ℕ → ℕ → ℕ → NonResidentLinkedList S → Outcome ℕ × NonResidentLinkedList S)
      → Option (Item T)
      → Outcome ℕ × NonResidentLinkedList S
  remove_round single_item f prev curr counter l again none = (err, l)
  remove_round single_item f prev curr counter l again (some item) =
      let u = unlink prev curr item.next l in
      let counter' = add_usize counter 1 in
      if f curr item.value
      then (if u.0
          then (if single_item then (ok counter', u.1) else again prev item.next counter' u.1)
          else (err, u.1))
      else again curr item.next counter l

  -- The loop of `remove_where`, with its variables `prev`, `curr` and `counter`.
  unfoldable pub remove_loop :
      ℕ
      → Bool
      → (ℕ → T → Bool)
      → ℕ
      → ℕ
      → ℕ
      → NonResidentLinkedList S
      → Outcome ℕ × NonResidentLinkedList S
  remove_loop zero single_item f prev curr counter l = (out_of_fuel, l)
  remove_loop (suc fuel) single_item f prev curr counter l =
      let r = read_item curr l.storage in
      if curr == next_null
      then (ok counter, l)
      else remove_round single_item f prev curr counter (record l { storage = r.1 })
          (remove_loop fuel single_item f) r.0

  unfoldable pub remove_where :
      ℕ → Bool → (ℕ → T → Bool) → NonResidentLinkedList S → Outcome ℕ × NonResidentLinkedList S
  remove_where fuel single_item f l = remove_loop fuel single_item f next_null l.head 0 l
