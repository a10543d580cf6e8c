-- ===== src/Resident/Constructed.antt =====
-- resident_object_manager/mod.rs: the constructor of the manager, which establishes its books.
use vnv_heap.Base.{ℕ, ◌<◌, ◌≡◌, refl, false, List, [], none, arith, if◌then◌else◌, ◌==◌}
use vnv_heap.Base.Outcome.{Outcome, ok, panic}
use vnv_heap.Base.Words.{usize_mod}
use vnv_heap.Resident.Object.{ResidentObject}
use vnv_heap.Resident.Total.{total}
use vnv_heap.Resident.State.{AllocatorModule, Layouts}
use vnv_heap.Resident.Allocation.{AllocatorSpec}
use vnv_heap.Resident.Books.{Books}
use vnv_heap.Resident.Management.{ObjectManagementModule}
use vnv_heap.Resident.Require.{Manager}

module _ {M S H : Type 0} (a : AllocatorModule H) (l : Layouts)
    (o : ObjectManagementModule M S H) where
  -- The instance, over the list and the storage of the caller.
  abbrev pub instance_of : ℕ → ℕ → ℕ → List ℕ → (ℕ → ResidentObject) → S → H → Manager M S H
  instance_of start size max_dirty_size resident_list objects storage heap = (
    o.new,
    record {
      storage = storage;
      heap = a.init start size heap;
      remaining_dirty_size = max_dirty_size;
      resident_list = resident_list;
      objects = objects;
    },
  )

  -- `new` over a buffer of `size` bytes from the address `start` on, whose first byte is indexed.
  unfoldable pub new : ℕ → ℕ → ℕ → List ℕ → (ℕ → ResidentObject) → S → H → Outcome (Manager M S H)
  new start size max_dirty_size resident_list objects storage heap =
      if size == 0
      then panic
      else ok (instance_of start size max_dirty_size resident_list objects storage heap)

  -- For an allocator whose `init` leaves nothing handed out, a buffer of at least one byte, and
  -- a limit that fits `usize`: `new` over an empty list does not panic and gives a manager whose
  -- books are in order for the limit.
  pub new-Books :
      (spec : AllocatorSpec a) (start size max_dirty_size : ℕ) (objects : ℕ → ResidentObject)
      (storage : S) (heap : H)
      → 0 < size
      → max_dirty_size < usize_mod
      → spec.Live (a.init start size heap) (λ q. none)
      → (x : Manager M S H) × (new start size max_dirty_size [] objects storage heap ≡ ok x)
        × Books l spec max_dirty_size x.1
  unfolding new total
  new-Books spec start size max_dirty_size objects storage heap some_bytes fits live =
      let indexed : (size == 0) ≡ false = ground (arith, some_bytes) in
      (
        instance_of start size max_dirty_size [] objects storage heap,
        rw indexed refl,
        record {
          fits = fits;
          distinct = tt;
          objects_valid = λ p h. absurd (ground (arith, h));
          blocks = live;
          sum = omega arith;
        },
      )
