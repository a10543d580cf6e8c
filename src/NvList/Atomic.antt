-- ===== src/NvList/Atomic.antt =====
-- `AtomicPushOnlyNonResidentLinkedList`: a list whose head an interrupt handler may read between
-- any two steps of its owner.
use vnv_heap.Base.{
  ℕ, ◌+◌, ◌≤◌, ◌≡◌, refl, Bool, if◌then◌else◌, ◌==◌, length, ◌++◌, ◌∷◌, ap, ◌∙◌, sym, subst, subst₂,
  List, zero, suc, true, false, ltb, arith,
}
use vnv_heap.Base.Outcome.{Outcome, ok, err, out_of_fuel}
use vnv_heap.Base.Words.{usize_size}
use vnv_heap.Storage.Device.{PersistentStorageModule, IsReliable}
use vnv_heap.Storage.Encoding.{Layout, to_bytes}
use vnv_heap.NvList.State.{next_null, NonResidentLinkedList, Iter, item_bytes}
use vnv_heap.NvList.Stored.{Entries, Clear, Stored, Stored-patch, length-item}
use vnv_heap.NvList.Push.{Represents, push-Represents}
use vnv_heap.NvList.State

pub record AtomicPushOnlyNonResidentLinkedList (S : Type 0) : Type 0 where
  pub head : ℕ
  pub storage : S

unfoldable pub new : {S : Type 0} → S → AtomicPushOnlyNonResidentLinkedList S
new s = record { head = next_null; storage = s }

abbrev pub is_empty : {S : Type 0} → AtomicPushOnlyNonResidentLinkedList S → Bool
is_empty l = l.head == next_null

-- `iter`, and `get_atomic_iter` of the shared head: both load the head.
unfoldable pub iter : {S : Type 0} → AtomicPushOnlyNonResidentLinkedList S → Iter S
iter l = record { curr = l.head; storage = l.storage }

-- The list that a reader sees.
abbrev pub seen : {S : Type 0} → AtomicPushOnlyNonResidentLinkedList S → NonResidentLinkedList S
seen l = record { head = l.head; storage = l.storage }

-- Where `push` stands: before the write of the item, before the store of the head, or at its end.
pub data PushPoint : Type 0 where
  writing : PushPoint
  storing : PushPoint
  finished : PushPoint
  failed : PushPoint

module _ {S T : Type 0} (d : PersistentStorageModule S) (t : Layout T) where
  -- The first step of `push` writes the item, and the second stores the head.
  unfoldable pub write_item :
      ℕ → T → AtomicPushOnlyNonResidentLinkedList S → Bool × AtomicPushOnlyNonResidentLinkedList S
  write_item item_offset value l =
      let w =
        d.write item_offset (item_bytes d t (record { next = l.head; value = value })) l.storage in
      (w.0, record l { storage = w.1 })

  abbrev pub store_head :
      ℕ → AtomicPushOnlyNonResidentLinkedList S → AtomicPushOnlyNonResidentLinkedList S
  store_head item_offset l = record l { head = item_offset }

  -- One step of `push`. A write that fails ends it with the error.
  unfoldable pub push_step :
      ℕ
      → T
      → PushPoint × AtomicPushOnlyNonResidentLinkedList S
      → PushPoint × AtomicPushOnlyNonResidentLinkedList S
  unfolding write_item
  push_step item_offset value (writing, l) =
      let w = write_item item_offset value l in ((if w.0 then storing else failed), w.1)
  push_step item_offset value (storing, l) = (finished, store_head item_offset l)
  push_step item_offset value (finished, l) = (finished, l)
  push_step item_offset value (failed, l) = (failed, l)

  -- So many steps, of which those after the end change nothing.
  unfoldable pub push_steps :
      ℕ
      → ℕ
      → T
      → PushPoint × AtomicPushOnlyNonResidentLinkedList S
      → PushPoint × AtomicPushOnlyNonResidentLinkedList S
  unfolding push_step
  push_steps zero item_offset value p = p
  push_steps (suc n) item_offset value p =
      push_steps n item_offset value (push_step item_offset value p)

  abbrev pub pushed :
      PushPoint × AtomicPushOnlyNonResidentLinkedList S
      → Outcome (Unit {0}) × AtomicPushOnlyNonResidentLinkedList S
  pushed (finished, l) = (ok tt, l)
  pushed (failed, l) = (err, l)
  pushed (writing, l) = (out_of_fuel, l)
  pushed (storing, l) = (out_of_fuel, l)

  -- `push` is its two steps.
  unfoldable pub push :
      ℕ
      → T
      → AtomicPushOnlyNonResidentLinkedList S
      → Outcome (Unit {0}) × AtomicPushOnlyNonResidentLinkedList S
  unfolding push_steps
  push item_offset value l = pushed (push_steps 2 item_offset value (writing, l))

module _ {S T : Type 0} {d : PersistentStorageModule S} (t : Layout T) (r : IsReliable d) where
  finished_stays :
      (n o : ℕ) (x : T) (l : AtomicPushOnlyNonResidentLinkedList S)
      → push_steps d t n o x (finished, l) ≡ (finished, l)
  unfolding push_steps push_step
  finished_stays zero o x l = refl
  finished_stays (suc n) o x l = finished_stays n o x l

  -- Two steps and more end `push` where the write succeeds.
  steps-end :
      (n o : ℕ) (x : T) (l : AtomicPushOnlyNonResidentLinkedList S)
      → (write_item d t o x l).0 ≡ true
      → push_steps d t (suc (suc n)) o x (writing, l)
        ≡ (finished, store_head d t o (write_item d t o x l).1)
  unfolding push_steps push_step
  steps-end n o x l done = go (write_item d t o x l).0 done
    where
      go :
          (b : Bool)
          → b ≡ true
          → push_steps d t n o x
              (push_step d t o x ((if b then storing else failed), (write_item d t o x l).1))
            ≡ (finished, store_head d t o (write_item d t o x l).1)
      go b e = rw e (finished_stays n o x (store_head d t o (write_item d t o x l).1))

  -- The list after the write of the item, and at the end of `push`.
  push-ends :
      (o : ℕ) (x : T) (l : AtomicPushOnlyNonResidentLinkedList S) (es : Entries T)
      → Represents t r (seen l) es
      → o + (usize_size + t.size) ≤ d.get_max_size l.storage
      → Clear (usize_size + t.size) o (usize_size + t.size) es
      → let w = write_item d t o x l in
        (w.0 ≡ true)
        × Represents t r (seen w.1) es
        × Represents t r (seen (store_head d t o w.1)) ((o, x) ∷ es)
  unfolding write_item State.push
  push-ends o x l es p inside clear =
      let bytes : List ℕ = to_bytes usize_size l.head ++ t.encode x in
      let len : length bytes ≡ usize_size + t.size = length-item t l.head x in
      let fits : o + length bytes ≤ d.get_max_size l.storage = rw len inside in
      let s' : S = (d.write o bytes l.storage).1 in
      let (k, e, q) = push-Represents t r o x (seen l) es p inside clear in
      let done : State.push d t o x (seen l) ≡ (ok tt, record { head = o; storage = s' }) =
        rw (r.write_done o bytes l.storage fits) refl in
      let written : Represents t r (record { head = l.head; storage = s' }) es = record {
        starts = p.starts;
        stored =
            subst₂ (λ m b. Stored t m b es) (sym (r.write_size o bytes l.storage))
              (sym (r.write_stores o bytes l.storage fits))
              (Stored-patch t (d.get_max_size l.storage) (r.contents l.storage) o bytes es
                (rw len clear) p.stored);
      } in
      (
        r.write_done o bytes l.storage fits,
        written,
        subst (λ k. Represents t r k ((o, x) ∷ es)) (sym (ap (λ y. y.1) e) ∙ ap (λ y. y.1) done) q,
      )

  -- Over a storage that keeps its laws, `push` at an offset within the storage whose region
  -- touches no item succeeds and puts the new entry in front. It consists of steps, at any of
  -- which a reader may come: before the second step, the store of the head, the reader sees the
  -- old entries, and from it on the old entries behind the new one.
  pub push-atomic :
      (o : ℕ) (x : T) (l : AtomicPushOnlyNonResidentLinkedList S) (es : Entries T) (n : ℕ)
      → Represents t r (seen l) es
      → o + (usize_size + t.size) ≤ d.get_max_size l.storage
      → Clear (usize_size + t.size) o (usize_size + t.size) es
      → ((push d t o x l).0 ≡ ok tt)
        × Represents t r (seen (push d t o x l).1) ((o, x) ∷ es)
        × Represents t r
            (seen (push_steps d t n o x (writing, l)).1)
            (if ltb n 2 then es else (o, x) ∷ es)
  unfolding push push_steps push_step
  push-atomic o x l es n p inside clear =
      let g = push-ends o x l es p inside clear in (rw g.0 refl, rw g.0 g.2, at_step n)
    where
      at_step :
          (n : ℕ)
          → Represents t r
              (seen (push_steps d t n o x (writing, l)).1)
              (if ltb n 2 then es else (o, x) ∷ es)
      at_step zero = p
      at_step (suc zero) = (push-ends o x l es p inside clear).1
      at_step (suc (suc n)) =
          let g = push-ends o x l es p inside clear in
          let past : ltb (suc (suc n)) 2 ≡ false = ground arith in
          rw past
            (subst (λ y. Represents t r (seen y.1) ((o, x) ∷ es)) (sym (steps-end n o x l g.0)) g.2)
