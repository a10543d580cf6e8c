-- ===== src/NvList/Simple.antt =====
-- `SimpleNonResidentLinkedList`, a list without data.
use vnv_heap.Base.{ℕ, ◌+◌, ◌≤◌, ◌≡◌, refl, Bool, [], Option, none, some}
use vnv_heap.Base.Outcome.{Outcome, ok, err, panic, out_of_fuel}
use vnv_heap.Base.Words.{usize_size}
use vnv_heap.Storage.Device.{PersistentStorageModule, IsReliable}
use vnv_heap.Storage.Encoding.{Layout}
use vnv_heap.NvList.State
use vnv_heap.NvList.State.{NonResidentLinkedList, Iter}
use vnv_heap.NvList.Stored.{Entries, Clear}
use vnv_heap.NvList.Push.{Represents, push-Represents, pop-Represents}

-- The data `()` has no bytes.
abbrev pub unit_layout : Layout (Unit {0})
unit_layout = record {
  size = 0;
  encode = λ u. [];
  decode = λ bytes. tt;
  length-encode = λ u. refl;
  decode-encode = λ u. refl;
}

pub record SimpleNonResidentLinkedList (S : Type 0) : Type 0 where
  pub inner : NonResidentLinkedList S

unfoldable pub new : {S : Type 0} → S → SimpleNonResidentLinkedList S
new s = record { inner = State.new s }

abbrev pub is_empty : {S : Type 0} → SimpleNonResidentLinkedList S → Bool
is_empty l = State.is_empty l.inner

-- The result of a call on entries as one on offsets.
abbrev pub offset_of : Outcome (Option (ℕ × Unit {0})) → Outcome (Option ℕ)
offset_of (ok none) = ok none
offset_of (ok (some e)) = ok (some e.0)
offset_of err = err
offset_of panic = panic
offset_of out_of_fuel = out_of_fuel

module _ {S : Type 0} (d : PersistentStorageModule S) where
  unfoldable pub push :
      ℕ → SimpleNonResidentLinkedList S → Outcome (Unit {0}) × SimpleNonResidentLinkedList S
  push item_offset l =
      let r = State.push d unit_layout item_offset tt l.inner in (r.0, record { inner = r.1 })

  unfoldable pub pop :
      SimpleNonResidentLinkedList S → Outcome (Option ℕ) × SimpleNonResidentLinkedList S
  pop l = let r = State.pop d unit_layout l.inner in (offset_of r.0, record { inner = r.1 })

  unfoldable pub remove_where :
      ℕ
      → Bool
      → (ℕ → Bool)
      → SimpleNonResidentLinkedList S
      → Outcome ℕ × SimpleNonResidentLinkedList S
  remove_where fuel single_item f l =
      let r = State.remove_where d unit_layout fuel single_item (λ o u. f o) l.inner in
      (r.0, record { inner = r.1 })

  -- The operations of `SimpleIter`.
  unfoldable pub next : Iter S → Outcome (Option ℕ) × Iter S
  next i = let r = State.next d unit_layout i in (offset_of r.0, r.1)

  unfoldable pub find : ℕ → (ℕ → Bool) → Iter S → Outcome (Option ℕ) × Iter S
  find fuel f i = let r = State.find d unit_layout fuel (λ o u. f o) i in (offset_of r.0, r.1)

  unfoldable pub all : ℕ → (ℕ → Bool) → Iter S → Outcome Bool × Iter S
  all fuel f i = State.all d unit_layout fuel (λ o u. f o) i

module _ {S : Type 0} {d : PersistentStorageModule S} (r : IsReliable d) where
  -- On a list of entries without data, over a storage that keeps its laws: a `push` at an offset
  -- within the storage whose eight bytes touch no item succeeds, a `pop` then gives this offset,
  -- and the list has the entries from before.
  pub pop-push :
      (o : ℕ) (l : SimpleNonResidentLinkedList S) (es : Entries (Unit {0}))
      → Represents unit_layout r l.inner es
      → o + (usize_size + 0) ≤ d.get_max_size l.inner.storage
      → Clear (usize_size + 0) o (usize_size + 0) es
      → (l₁ l₂ : SimpleNonResidentLinkedList S) × (push d o l ≡ (ok tt, l₁))
        × (pop d l₁ ≡ (ok (some o), l₂))
        × Represents unit_layout r l₂.inner es
  unfolding push pop
  pop-push o l es p inside clear =
      let (k₁, e₁, p₁) = push-Represents unit_layout r o tt l.inner es p inside clear in
      let (k₂, e₂, p₂) = pop-Represents unit_layout r o tt es k₁ p₁ in
      (record { inner = k₁ }, record { inner = k₂ }, rw e₁ refl, rw e₂ refl, p₂)
