-- ===== src/Heap/Inner.antt =====
-- vnv_heap.rs: `VNVHeapInner` over any object management module, RAM allocator, storage and allocator
-- of the storage. A type is its layout, a value its bytes; the lock of the storage is free.
use vnv_heap.Base.{ℕ, Bool, List, Option, none, some, if◌then◌else◌}
use vnv_heap.Base.Outcome.{Outcome, ok, err, panic, out_of_fuel}
use vnv_heap.Base.Words.{add_usize}
use vnv_heap.Storage.Device.{PersistentStorageModule}
use vnv_heap.Resident.Object.{TypeLayout, calc_backup_obj_user_data_offset}
use vnv_heap.Resident.State.{AllocatorModule, Layouts}
use vnv_heap.Resident.Management.{ObjectManagementModule}
use vnv_heap.Resident.Require.{Manager}
use vnv_heap.Resident.Lifecycle.{try_to_allocate, drop}

-- `NonResidentAllocatorModule`: the calls may change the storage, and give `none` or `false` for
-- `Err(())`.
pub record NonResidentAllocatorModule (N S : Type 0) : Type 0 where
  pub allocate : TypeLayout → N → S → Option ℕ × (N × S)
  pub deallocate : ℕ → TypeLayout → N → S → Bool × (N × S)

-- The layout of the data of an object in the storage.
abbrev pub calc_backup_obj_layout_static : TypeLayout → TypeLayout
calc_backup_obj_layout_static layout = record { size = layout.size; align = 1 }

-- The allocator of the storage, and the manager of the resident objects with the storage.
abbrev pub VnvHeapInner : Type 0 → Type 0 → Type 0 → Type 0 → Type 0
VnvHeapInner N M S H = N × Manager M S H

module _ {N M S H : Type 0} (d : PersistentStorageModule S) (a : AllocatorModule H) (l : Layouts)
    (o : ObjectManagementModule M S H) (nonresident : NonResidentAllocatorModule N S) where
  -- `write_storage_data` of a value that did not get into memory.
  abbrev pub write_value : ℕ → List ℕ → VnvHeapInner N M S H → Outcome ℕ × VnvHeapInner N M S H
  write_value offset bytes (n, (m, r)) =
      let w = d.write (add_usize offset calc_backup_obj_user_data_offset) bytes r.storage in
      ((if w.0 then ok offset else err), (n, (m, record r { storage = w.1 })))

  -- A value whose region in the storage is there gets into memory, or into the storage.
  abbrev pub place_value :
      TypeLayout
      → List ℕ
      → Bool
      → Option ℕ
      → VnvHeapInner N M S H
      → Outcome ℕ × VnvHeapInner N M S H
  place_value layout bytes tracked none x = (err, x)
  place_value layout bytes tracked (some offset) (n, x) =
      let e = try_to_allocate d a l o layout offset tracked bytes x in
      if e.0 then (ok offset, (n, e.1)) else write_value offset bytes (n, e.1)

  -- `allocate`: the offset of the new object.
  unfoldable pub inner_allocate :
      TypeLayout → List ℕ → Bool → VnvHeapInner N M S H → Outcome ℕ × VnvHeapInner N M S H
  unfolding try_to_allocate
  inner_allocate layout bytes tracked (n, (m, r)) =
      let e = nonresident.allocate (calc_backup_obj_layout_static layout) n r.storage in
      place_value layout bytes tracked e.0 (e.1.0, (m, record r { storage = e.1.1 }))

  abbrev pub free_region :
      ℕ → TypeLayout → N → Manager M S H → Outcome (Unit {0}) × VnvHeapInner N M S H
  free_region offset layout n (m, r) =
      let e = nonresident.deallocate offset (calc_backup_obj_layout_static layout) n r.storage in
      ((if e.0 then ok tt else err), (e.1.0, (m, record r { storage = e.1.1 })))

  -- The region of an object that could not be dropped is kept.
  abbrev pub dropped_region :
      ℕ
      → TypeLayout
      → N
      → Outcome (Unit {0}) × Manager M S H
      → Outcome (Unit {0}) × VnvHeapInner N M S H
  dropped_region offset layout n (ok u, x) = free_region offset layout n x
  dropped_region offset layout n (err, x) = (err, (n, x))
  dropped_region offset layout n (panic, x) = (panic, (n, x))
  dropped_region offset layout n (out_of_fuel, x) = (out_of_fuel, (n, x))

  unfoldable pub inner_deallocate :
      ℕ
      → TypeLayout
      → Bool
      → Bool
      → VnvHeapInner N M S H
      → Outcome (Unit {0}) × VnvHeapInner N M S H
  unfolding drop
  inner_deallocate offset layout needs_drop tracked (n, x) =
      dropped_region offset layout n (drop d a l o layout offset needs_drop tracked x)
