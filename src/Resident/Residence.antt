-- ===== src/Resident/Residence.antt =====
-- `require_resident` of the manager, for objects without partial dirtiness tracking.
use vnv_heap.Base.{ℕ, ◌+◌, ◌<◌, ◌≡◌, refl, sym, false, arith, inr, Option, none, some}
use vnv_heap.Base.Outcome.{Outcome, ok}
use vnv_heap.Base.Words.{usize_mod}
use vnv_heap.Storage.Device.{PersistentStorageModule}
use vnv_heap.Resident.Object.{
  TypeLayout, total_metadata_backup_size, fresh_object_dirty_size,
  calc_dirty_metadata_dirty_byte_cnt,
}
use vnv_heap.Resident.State.{
  Resident, Layouts, AllocatorModule, calc_resident_obj_layout_static,
  calc_resident_obj_layout_dynamic,
}
use vnv_heap.Resident.Allocation.{AllocatorSpec, IsCompiled, block_layout}
use vnv_heap.Resident.Books.{Books, Kept-refl}
use vnv_heap.Resident.Management.{ObjectManagementModule, IsManagement}
use vnv_heap.Resident.Require.{
  Manager, ◌then_call◌, find_element_mut, make_dirty_space, load_object, require_absent,
  require_resident,
}
use vnv_heap.Resident.Insert.{Kept-Stays}
use vnv_heap.Resident.Required.{
  Fills, Allocated, got, refused, exhausted, make_space-Allocated, make_dirty_space-Allocated,
}
use vnv_heap.Resident.Loaded.{
  Required, ready, unavailable, no_space, find_in-has, load_object-Required,
}

module _ {M S H : Type 0} (d : PersistentStorageModule S) (a : AllocatorModule H) (l : Layouts)
    (o : ObjectManagementModule M S H) (spec : AllocatorSpec a) (managed : IsManagement l spec o)
    (fills : Fills d) (compiled : IsCompiled l) where
  total-block :
      (layout : TypeLayout)
      → (calc_resident_obj_layout_static l layout false).0 ≡ block_layout l layout
  unfolding calc_resident_obj_layout_static calc_resident_obj_layout_dynamic
  total-block layout = sym (compiled.fields layout)

  paid : (n : ℕ) → fresh_object_dirty_size false n ≡ total_metadata_backup_size
  unfolding calc_dirty_metadata_dirty_byte_cnt
  paid n = refl

  module _ {initial : ℕ} {r : Resident S H} (layout : TypeLayout) (offset : ℕ)
      (small : layout.size + total_metadata_backup_size < usize_mod) where
    load-Allocated :
        (w : Outcome ℕ) (x : Manager M S H)
        → Allocated d a l o spec managed initial total_metadata_backup_size
            (block_layout l layout)
            r
            x.1
            w
        → let e = (w, x) then_call (λ q y. load_object d a l o layout offset false q y) in
          Required d a l o spec managed fills compiled initial layout offset r e.1.1 e.0
    load-Allocated w (m, x) (got y {q = q} k fits e at) = rw at (
        load_object-Required d a l o spec managed fills compiled layout offset q m y small k fits e)
    load-Allocated w x (refused k) = unavailable k
    load-Allocated w x (exhausted y k e) = no_space y k e

    pay-Allocated :
        (w : Outcome ℕ) (x : Manager M S H)
        → Allocated d a l o spec managed initial 0 (block_layout l layout) r x.1 w
        → let e =
            (w, x)
            then_call (λ q y.
                make_dirty_space d a l o total_metadata_backup_size (block_layout l layout) q y)
            then_call (λ q y. load_object d a l o layout offset false q y) in
          Required d a l o spec managed fills compiled initial layout offset r e.1.1 e.0
    pay-Allocated w (m, x) (got y {q = q} k fits e at) = rw at (
        load-Allocated _ _ (
          make_dirty_space-Allocated d a l o spec managed total_metadata_backup_size
            (block_layout l layout) m y q (omega arith) k e))
    pay-Allocated w x (refused k) = unavailable k
    pay-Allocated w x (exhausted y k e) = no_space y k e

    require_absent-Required :
        (m : M)
        → Books l spec initial r
        → let e = require_absent d a l o layout offset false (m, r) in
          Required d a l o spec managed fills compiled initial layout offset r e.1.1 e.0
    require_absent-Required m b =
        rw (total-block layout, paid layout.size)
          (pay-Allocated _ _
            (make_space-Allocated d a l o spec managed (block_layout l layout) m b))

    -- For a storage whose reads fill the buffer, an allocator and an object management module
    -- that keep their laws, and books in order; for a type without partial dirtiness tracking
    -- whose size and metadata fit `usize`: `require_resident` ends with the object at the offset
    -- in the list, the books in order and every object in use still there; or with an error, the
    -- books in order and no new object in the list; or it panics, where the allocator refuses
    -- the block.
    pub require_resident-Required :
        (m : M)
        → Books l spec initial r
        → let e = require_resident d a l o layout offset false (m, r) in
          Required d a l o spec managed fills compiled initial layout offset r e.1.1 e.0
    unfolding require_resident
    require_resident-Required m b = go (find_element_mut offset r) refl
      where
        go :
            (w : Option ℕ)
            → find_element_mut offset r ≡ w
            → let e : Outcome ℕ × Manager M S H = elim w [
              | some p ↦ (ok p, (m, r))
              | none ↦ require_absent d a l o layout offset false (m, r)
            ] in
              Required d a l o spec managed fills compiled initial layout offset r e.1.1 e.0
        go (some p) e =
            let f = find_in-has r.objects offset p r.resident_list e in
            ready (Kept-Stays l spec initial (Kept-refl l spec b)) f.0 f.1 (inr (e, refl))
        go none e = require_absent-Required m b
