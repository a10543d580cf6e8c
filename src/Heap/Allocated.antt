-- ===== src/Heap/Allocated.antt =====
-- vnv_heap.rs: what `allocate` of the heap gives.
use vnv_heap.Base.{
  ℕ, ◌+◌, ◌≤◌, ◌<◌, ◌≡◌, refl, sym, Bool, true, false, List, Option, none, some, arith,
  if◌then◌else◌, ltb, inl, inr, Bool-cases, length,
}
use vnv_heap.Base.Outcome.{Outcome, ok, err}
use vnv_heap.Base.Words.{usize_mod, add_usize}
use vnv_heap.Storage.Bytes.{slice, slice-patch}
use vnv_heap.Storage.Device.{PersistentStorageModule, IsReliable}
use vnv_heap.Resident.Object.{
  TypeLayout, ResidentObject, total_metadata_backup_size, fresh_object_dirty_size,
}
use vnv_heap.Resident.State.{AllocatorModule, Layouts, Resident, calc_resident_obj_layout_static}
use vnv_heap.Resident.Allocation.{AllocatorSpec, IsCompiled}
use vnv_heap.Resident.Books.{Books}
use vnv_heap.Resident.Management.{ObjectManagementModule, IsManagement}
use vnv_heap.Resident.Lifecycle.{try_to_allocate, create_at, created_object}
use vnv_heap.Resident.References.{access_object, modify_object}
use vnv_heap.Resident.Require.{Manager, insert_object}
use vnv_heap.Resident.Created.{Creates, returned, try_to_allocate-Creates}
use vnv_heap.Heap.Inner.{
  NonResidentAllocatorModule, calc_backup_obj_layout_static, write_value, place_value,
  inner_allocate,
}

-- What the heap relies on of the allocator of the storage: a region that is handed out lies in it.
abbrev pub IsInside :
    {N S : Type 0} → PersistentStorageModule S → NonResidentAllocatorModule N S → Type 0
IsInside {N} {S} d nonresident =
    (layout : TypeLayout) (n : N) (s : S) (offset : ℕ)
    → (nonresident.allocate layout n s).0 ≡ some offset
    → offset + layout.size ≤ d.get_max_size (nonresident.allocate layout n s).1.1

Books-storage :
    {S H : Type 0} {l : Layouts} {a : AllocatorModule H} {spec : AllocatorSpec a} {initial : ℕ}
    {r : Resident S H} (s : S)
    → Books l spec initial r
    → Books l spec initial (record r { storage = s })
Books-storage s b = record {
  fits = b.fits;
  distinct = b.distinct;
  objects_valid = b.objects_valid;
  blocks = b.blocks;
  sum = b.sum;
}

module _ {N M S H : Type 0} (d : PersistentStorageModule S) (a : AllocatorModule H) (l : Layouts)
    (o : ObjectManagementModule M S H) (nonresident : NonResidentAllocatorModule N S)
    (reliable : IsReliable d) (inside : IsInside d nonresident) (spec : AllocatorSpec a)
    (managed : IsManagement l spec o) (compiled : IsCompiled l) (initial : ℕ) where
  -- How `allocate` ends: the value is resident and paid for, or stored in its region, or there is no
  -- region for it.
  pub data Allocates (layout : TypeLayout) (bytes : List ℕ) (n : N) (r : Resident S H)
      : Outcome ℕ → Resident S H → Type 0 where
    resident :
        {offset : ℕ} {r' : Resident S H} (s : S)
        → (nonresident.allocate (calc_backup_obj_layout_static layout) n r.storage).0 ≡ some offset
        → Creates d a l o spec managed compiled initial layout offset bytes
            (record r { storage = s })
            r'
            true
        → Allocates layout bytes n r (ok offset) r'
    stored :
        {offset : ℕ} {r' : Resident S H}
        → (nonresident.allocate (calc_backup_obj_layout_static layout) n r.storage).0 ≡ some offset
        → Books l spec initial r'
        → r'.resident_list ≡ r.resident_list
        → slice (reliable.contents r'.storage) offset layout.size ≡ bytes
        → Allocates layout bytes n r (ok offset) r'
    no_region :
        {r' : Resident S H}
        → (nonresident.allocate (calc_backup_obj_layout_static layout) n r.storage).0 ≡ none
        → Books l spec initial r'
        → Allocates layout bytes n r err r'

  create_at-storage :
      (cost offset : ℕ) (x : ResidentObject) (w : Option ℕ) (h : H) (m : M) (r : Resident S H)
      → (create_at d a l o cost offset x (w, h) (m, r)).1.1.storage ≡ r.storage
  unfolding insert_object access_object modify_object
  create_at-storage cost offset x none h m r = refl
  create_at-storage cost offset x (some q) h m r = refl

  try_to_allocate-storage :
      (layout : TypeLayout) (offset : ℕ) (bytes : List ℕ) (m : M) (r : Resident S H)
      → (try_to_allocate d a l o layout offset false bytes (m, r)).1.1.storage ≡ r.storage
  unfolding try_to_allocate
  try_to_allocate-storage layout offset bytes m r =
      let total = calc_resident_obj_layout_static l layout false in
      let cost = add_usize layout.size (fresh_object_dirty_size false layout.size) in
      elim (Bool-cases (ltb r.remaining_dirty_size cost)) [
        | inl lacks ↦ rw lacks refl
        | inr fits ↦ rw fits (
            create_at-storage cost total.1 (created_object layout offset false bytes)
              (a.allocate total.0 r.heap).0 (a.allocate total.0 r.heap).1 m r)
      ]

  abbrev given : TypeLayout → N → Resident S H → Option ℕ × (N × S)
  given layout n r = nonresident.allocate (calc_backup_obj_layout_static layout) n r.storage

  -- For a storage that keeps its laws, an allocator of the storage whose regions lie in it, a
  -- RAM allocator and an object management module that keep their laws, and books in order; for
  -- a value of the type's size, which fits `usize` with its metadata: `allocate` of the heap,
  -- without partial dirtiness tracking, ends with the offset of a region, and the value is the
  -- data of a new dirty object in the list that is paid for, or the bytes of the region in the
  -- storage, with the books in order. It ends with an error only where there is no region for
  -- it.
  pub inner_allocate-Allocates :
      {r : Resident S H} (layout : TypeLayout) (bytes : List ℕ) (n : N) (m : M)
      → Books l spec initial r
      → length bytes ≡ layout.size
      → layout.size + total_metadata_backup_size < usize_mod
      → let e = inner_allocate d a l o nonresident layout bytes false (n, (m, r)) in
        Allocates layout bytes n r e.0 e.1.1.1
  unfolding inner_allocate
  inner_allocate-Allocates {r} layout bytes n m b whole small = go (given layout n r).0 refl
    where
      placed :
          (offset : ℕ) (w : Bool) (x : Manager M S H)
          → (given layout n r).0 ≡ some offset
          → Creates d a l o spec managed compiled initial layout offset bytes
              (record r { storage = (given layout n r).1.1 })
              x.1
              w
          → x.1.storage ≡ (given layout n r).1.1
          → let e =
              if w
              then (ok offset, ((given layout n r).1.0, x))
              else write_value d a l o nonresident offset bytes ((given layout n r).1.0, x) in
            Allocates layout bytes n r e.0 e.1.1.1
      placed offset true (m', y) e c same = resident (given layout n r).1.1 e c
      placed offset false (m', y) e (returned k less left) same =
          let room = inside (calc_backup_obj_layout_static layout) n r.storage offset e in
          let fits : offset + length bytes ≤ d.get_max_size y.storage =
            rw same (omega (arith, room, whole)) in
          let at : add_usize offset 0 ≡ offset =
            omega (arith, fits, reliable.addressable y.storage) in
          let stores = reliable.write_stores offset bytes y.storage fits in
          rw (at, reliable.write_done offset bytes y.storage fits)
            (stored e (Books-storage _ k.books) less
              (rw (stores, sym whole) (slice-patch (reliable.contents y.storage) offset bytes)))

      go :
          (w : Option ℕ)
          → (given layout n r).0 ≡ w
          → let e =
              place_value d a l o nonresident layout bytes false w
                ((given layout n r).1.0, (m, record r { storage = (given layout n r).1.1 })) in
            Allocates layout bytes n r e.0 e.1.1.1
      go none e = no_region e (Books-storage (given layout n r).1.1 b)
      go (some offset) e =
          placed offset _ _ e
            (try_to_allocate-Creates d a l o spec managed compiled initial layout offset bytes m
              (Books-storage (given layout n r).1.1 b) whole small)
            (try_to_allocate-storage layout offset bytes m
              (record r { storage = (given layout n r).1.1 }))
