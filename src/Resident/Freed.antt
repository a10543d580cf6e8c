-- ===== src/Resident/Freed.antt =====
-- `get_mut` over the default module, where the sync that it asks for can only free the bytes of the
-- object itself.
use vnv_heap.Base.{
  ℕ, ◌+◌, ◌-◌, ◌≤◌, ◌<◌, ◌≡◌, refl, sym, ap, subst, ◌∙◌, true, false, not, [], ◌∷◌, arith, ◌==◌,
  leb, none, some, ==_self,
}
use vnv_heap.Base.Outcome.{ok}
use vnv_heap.Base.Words.{add_usize}
use vnv_heap.Storage.Device.{PersistentStorageModule}
use vnv_heap.Buddy.Chain.{has}
use vnv_heap.Buddy.Remove.{erase}
use vnv_heap.Resident.Object.{
  ResidentObject, dirty_size, is_data_dirty, total_metadata_backup_size, persist_user_data_dynamic,
}
use vnv_heap.Resident.Persist.{dirty_size-whole}
use vnv_heap.Resident.State.{
  Resident, Layouts, AllocatorModule, object_in_use, unload, unload_resident_object_dynamic,
  unload_end, remove_item,
}
use vnv_heap.Resident.Allocation.{AllocatorSpec}
use vnv_heap.Resident.Books.{Books, put_self}
use vnv_heap.Resident.Items
use vnv_heap.Resident.Management.{for_each, account}
use vnv_heap.Resident.Default
use vnv_heap.Resident.Default.{default_module, sync_item, unload_item}
use vnv_heap.Resident.DefaultKept.{default_module-IsManagement}
use vnv_heap.Resident.Granted.{cost, missing_some}
use vnv_heap.Resident.Require.{sync_dirty_data}
use vnv_heap.Resident.References.{make_dirty, get_mut_at, bytes_to_sync}

module _ {S H : Type 0} (d : PersistentStorageModule S) (a : AllocatorModule H) (l : Layouts)
    (spec : AllocatorSpec a) {initial : ℕ} {r : Resident S H} (p : ℕ) (b : Books l spec initial r)
    (hp : has p r.resident_list ≡ true) (clean : is_data_dirty (r.objects p) ≡ false)
    (idle : object_in_use (r.objects p) ≡ false) where
  metadata_only : dirty_size (r.objects p) ≡ total_metadata_backup_size
  metadata_only = dirty_size-whole (b.objects_valid p hp) ∙ rw clean refl

  unload-clean :
      let e = unload d a l p r in
      (e.0 ≡ ok total_metadata_backup_size)
      × (e.1.resident_list ≡ erase p r.resident_list)
      × (e.1.remaining_dirty_size ≡ r.remaining_dirty_size + total_metadata_backup_size)
      × (e.1.objects p ≡ r.objects p)
  unfolding unload unload_resident_object_dynamic persist_user_data_dynamic unload_end remove_item
  unload-clean =
      let room = Items.room d a l spec p b hp in
      let whole = metadata_only in
      (
        rw (idle, clean, whole) (ap ok (omega (arith, room, whole))),
        rw (idle, clean) refl,
        rw (idle, clean, whole) (omega (arith, room, whole)),
        rw (idle, clean) (put_self r.objects p (r.objects p)),
      )

  module _ (one : r.resident_list ≡ p ∷ []) (required : ℕ) where
    -- The default module passes over the clean object in its first loop.
    passed : for_each (sync_item d a l required) r.resident_list 0 r ≡ (ok (some 0), r)
    unfolding sync_item for_each
    passed =
        subst (λ ps. for_each (sync_item d a l required) ps 0 r ≡ (ok (some 0), r)) (sym one)
          (rw (idle, clean) refl)

    -- It unloads it in the second one.
    unloaded :
        required ≤ total_metadata_backup_size
        → for_each (unload_item d a l required) r.resident_list 0 r
          ≡ (ok none, (unload d a l p r).1)
    unfolding unload_item for_each account
    unloaded fits =
        let full : leb required (add_usize 0 total_metadata_backup_size) ≡ true =
          ground (arith, fits) in
        subst (λ ps. for_each (unload_item d a l required) ps 0 r ≡ (ok none, (unload d a l p r).1))
          (sym one) (rw (idle, unload-clean.0, full) refl)

    sync_freed :
        required ≤ total_metadata_backup_size
        → Default.sync_dirty_data d a l required tt r ≡ (ok tt, (tt, (unload d a l p r).1))
    unfolding Default.sync_dirty_data
    sync_freed fits = rw (passed, unloaded fits) refl

    -- The `assert!` of the manager holds: the bytes of the metadata are enough.
    sync_asserted :
        0 < required
        → required ≤ total_metadata_backup_size
        → sync_dirty_data d a l (default_module d a l) required (tt, r)
          ≡ (ok tt, (tt, (unload d a l p r).1))
    unfolding sync_dirty_data
    sync_asserted some_bytes fits =
        let room = Items.room d a l spec p b hp in
        let more : (required == 0) ≡ false = ground (arith, some_bytes) in
        let u = unload-clean in
        let left = u.2 in
        let holds : leb (add_usize r.remaining_dirty_size required)
              (unload d a l p r).1.remaining_dirty_size
            ≡ true =
          ground (arith, room, metadata_only, left, fits) in
        rw (more, sync_freed fits, holds) refl

  -- The call goes on with the memory of the object.
  freed_end :
      (y : Resident S H)
      → y.objects p ≡ r.objects p
      → (r.objects p).layout.size ≤ y.remaining_dirty_size
      → let e = make_dirty d a l (default_module d a l) p (tt, y) in
        (e.0 ≡ ok p) × (e.1.1.resident_list ≡ y.resident_list)
  unfolding make_dirty
  freed_end y same covers =
      let clean' : is_data_dirty (y.objects p) ≡ false = rw same clean in
      let holds : leb (y.objects p).layout.size y.remaining_dirty_size ≡ true =
        ground (arith, covers, ap (λ (x : ResidentObject). x.layout.size) same) in
      (rw (clean', holds) refl, rw (clean', holds) refl)

  -- Over the default module, for an allocator that keeps its laws and books in order, and a
  -- clean object that is not in use and is the only one in the list: where more bytes are
  -- missing for it than nothing and at most those of its metadata, `get_mut` reports success for
  -- it although the sync has unloaded it: the list is empty.
  pub get_mut_at-freed :
      r.resident_list ≡ p ∷ []
      → r.remaining_dirty_size < (r.objects p).layout.size
      → (r.objects p).layout.size ≤ r.remaining_dirty_size + total_metadata_backup_size
      → let e = get_mut_at d a l (default_module d a l) p (tt, r) in
        (e.0 ≡ ok p) × (e.1.1.resident_list ≡ [])
  unfolding get_mut_at erase
  get_mut_at-freed one lacks covers =
      let n = (r.objects p).layout.size - r.remaining_dirty_size in
      let missing : bytes_to_sync d a l (default_module d a l) p r ≡ n =
        let whole : cost (r.objects p) ≡ (r.objects p).layout.size = rw clean refl in
        omega (
          arith,
          whole,
          lacks,
          missing_some d a l (default_module d a l) spec (default_module-IsManagement d a l spec)
              initial p tt b hp (omega (arith, whole, lacks)),
        ) in
      let more : not (n == 0) ≡ true = ground (arith, lacks) in
      let u = unload-clean in
      let g = freed_end (unload d a l p r).1 u.3 (omega (arith, u.2, covers)) in
      let empty : erase p r.resident_list ≡ [] = rw one (rw (==_self p) refl) in
      rw (missing, more, sync_asserted one n (omega (arith, lacks)) (omega (arith, covers)))
        (g.0, g.1 ∙ u.1 ∙ empty)
