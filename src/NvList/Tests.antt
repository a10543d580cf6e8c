-- ===== src/NvList/Tests.antt =====
-- The theorems on `nonresident_allocator/linked_list.rs` at a storage of 1000 bytes in a list with
-- an item at 16 and one at 40, each of a pointer and an eight-byte field that holds a Boolean.
use vnv_heap.Base.{
  ℕ, ◌≡◌, refl, sym, ap, subst, Bool, true, false, inr, List, [], ◌∷◌, some, arith, if◌then◌else◌,
  ◌==◌,
}
use vnv_heap.Base.Outcome.{ok}
use vnv_heap.Storage.Bytes.{Contents}
use vnv_heap.Storage.Encoding.{Layout}
use vnv_heap.Storage.Tests.{ram, ram-IsReliable}
use vnv_heap.NvList.State.{NonResidentLinkedList, Iter, push, pop, find, all, remove_where}
use vnv_heap.NvList.Stored.{Entries}
use vnv_heap.NvList.Simple
use vnv_heap.NvList.Simple.{pop-push}
use vnv_heap.NvList.Atomic
use vnv_heap.NvList.Atomic.{push-atomic}
use vnv_heap.NvList.Push.{Represents, push-Represents, pop-Represents}
use vnv_heap.NvList.Walk.{find_entry, find-find_entry, all_entries, all-all_entries}
use vnv_heap.NvList.Remove.{survivors, removed, remove_where-survivors}

abbrev field_of : Bool → List ℕ
field_of b = (if b then 1 else 0) ∷ 0 ∷ 0 ∷ 0 ∷ 0 ∷ 0 ∷ 0 ∷ 0 ∷ []

abbrev field_value : List ℕ → Bool
field_value [] = false
field_value (b ∷ bs) = b == 1

field_value-field_of : (b : Bool) → field_value (field_of b) ≡ b
field_value-field_of true = refl
field_value-field_of false = refl

abbrev field : Layout Bool
field = record {
  size = 8;
  encode = field_of;
  decode = field_value;
  length-encode = λ b. refl;
  decode-encode = field_value-field_of;
}

abbrev empty_list : NonResidentLinkedList Contents
empty_list = record { head = 18446744073709551615; storage = λ a. 0 }

empty_list-Represents : Represents field ram-IsReliable empty_list []
empty_list-Represents = record { starts = refl; stored = tt }

abbrev one : NonResidentLinkedList Contents
one = (push ram field 16 true empty_list).1

one-Represents : Represents field ram-IsReliable one ((16, true) ∷ [])
one-Represents =
    let (l, e, p) =
      push-Represents field ram-IsReliable 16 true empty_list [] empty_list-Represents (omega arith)
        tt in
    subst (λ x. Represents field ram-IsReliable x ((16, true) ∷ [])) (sym (ap (λ q. q.1) e)) p

abbrev two : NonResidentLinkedList Contents
two = (push ram field 40 false one).1

abbrev two_entries : Entries Bool
two_entries = (40, false) ∷ (16, true) ∷ []

two-Represents : Represents field ram-IsReliable two two_entries
two-Represents =
    let (l, e, p) =
      push-Represents field ram-IsReliable 40 false one ((16, true) ∷ []) one-Represents
        (omega arith) (inr (omega arith), tt) in
    subst (λ x. Represents field ram-IsReliable x two_entries) (sym (ap (λ q. q.1) e)) p

push-Represents_example :
    (l' : NonResidentLinkedList Contents) × (push ram field 40 false one ≡ (ok tt, l'))
    × Represents field ram-IsReliable l' two_entries
push-Represents_example =
    push-Represents field ram-IsReliable 40 false one ((16, true) ∷ []) one-Represents (omega arith)
      (inr (omega arith), tt)

pop-Represents_example :
    (l' : NonResidentLinkedList Contents) × (pop ram field two ≡ (ok (some (40, false)), l'))
    × Represents field ram-IsReliable l' ((16, true) ∷ [])
pop-Represents_example =
    pop-Represents field ram-IsReliable 40 false ((16, true) ∷ []) two two-Represents

find-find_entry_example :
    (i : Iter Contents) × (find ram field 3 (λ o b. b) (record { curr = 40; storage = two.storage })
      ≡ (ok (find_entry (λ o b. b) two_entries), i))
    × (i.storage ≡ two.storage)
    × (ram.get_max_size i.storage ≡ ram.get_max_size two.storage)
find-find_entry_example =
    find-find_entry field ram-IsReliable (λ o b. b) two_entries 3 two.storage
      (Represents.stored two-Represents) (omega arith)

all-all_entries_example :
    (all ram field 3 (λ o b. b) (record { curr = 40; storage = two.storage })).0
    ≡ ok (all_entries (λ o b. b) two_entries)
all-all_entries_example =
    all-all_entries field ram-IsReliable (λ o b. b) two_entries 3 two.storage
      (Represents.stored two-Represents) (omega arith)

remove_where-survivors_example :
    (l' : NonResidentLinkedList Contents) × (remove_where ram field 3 true (λ o b. b) two
      ≡ (ok (removed true (λ o b. b) two_entries), l'))
    × Represents field ram-IsReliable l' (survivors true (λ o b. b) two_entries)
remove_where-survivors_example =
    remove_where-survivors field ram-IsReliable true (λ o b. b) two_entries 3 two two-Represents
      (omega arith) (omega arith)

pop-push_example :
    (l₁ l₂ : Simple.SimpleNonResidentLinkedList Contents) × (Simple.push ram 40
        (record { inner = empty_list })
      ≡ (ok tt, l₁))
    × (Simple.pop ram l₁ ≡ (ok (some 40), l₂))
    × Represents Simple.unit_layout ram-IsReliable l₂.inner []
pop-push_example =
    pop-push ram-IsReliable 40 (record { inner = empty_list }) []
      (record { starts = refl; stored = tt }) (omega arith) tt

abbrev atomic : Atomic.AtomicPushOnlyNonResidentLinkedList Contents
atomic = record { head = one.head; storage = one.storage }

push-atomic_example :
    ((Atomic.push ram field 40 false atomic).0 ≡ ok tt)
    × Represents field ram-IsReliable
        (Atomic.seen (Atomic.push ram field 40 false atomic).1)
        ((40, false) ∷ (16, true) ∷ [])
    × Represents field ram-IsReliable
        (Atomic.seen (Atomic.push_steps ram field 1 40 false (Atomic.writing, atomic)).1)
        ((16, true) ∷ [])
push-atomic_example =
    push-atomic field ram-IsReliable 40 false atomic ((16, true) ∷ []) 1 one-Represents
      (omega arith) (inr (omega arith), tt)
