-- ===== src/Resident/Created.antt =====
-- `try_to_allocate` of the manager, for objects without partial dirtiness tracking.
use vnv_heap.Base.{
  ℕ, ◌+◌, ◌-◌, ◌≤◌, ◌<◌, ◌≡◌, refl, ◌∙◌, Bool, true, false, List, [], Option, none, some, arith,
  ltb, inl, inr, Bool-cases, length, ==_self,
}
use vnv_heap.Base.Words.{usize_mod, add_usize, sub_usize}
use vnv_heap.Status.{data_dirty, partial_dirtiness_tracking}
use vnv_heap.Status.Flags.{get_flag-new, new-IsStatus}
use vnv_heap.Storage.Device.{PersistentStorageModule}
use vnv_heap.Buddy.Chain.{has}
use vnv_heap.Buddy.Push.{insert, has-insert}
use vnv_heap.Resident.Object.{
  TypeLayout, ResidentObject, dirty_size, is_data_dirty, total_metadata_backup_size, new_object,
  fresh_object_dirty_size, calc_dirty_metadata_dirty_byte_cnt,
}
use vnv_heap.Resident.Persist.{
  IsObject, with_flag, with_flag-IsObject, flag-with_flag, dirty_size-whole,
}
use vnv_heap.Resident.State.{
  Resident, Layouts, AllocatorModule, calc_resident_obj_layout_static,
  calc_resident_obj_layout_dynamic,
}
use vnv_heap.Resident.Allocation.{AllocatorSpec, IsCompiled, block_layout}
use vnv_heap.Resident.Books.{Books, Kept, Kept-refl, heap-Kept, put_self, blocks_of}
use vnv_heap.Resident.Management.{ObjectManagementModule, IsManagement}
use vnv_heap.Resident.Require.{insert_object}
use vnv_heap.Resident.References.{access_object, modify_object}
use vnv_heap.Resident.Insert.{Stays, Kept-Stays, Stays-trans, insert-Stays}
use vnv_heap.Resident.Lent
use vnv_heap.Resident.Lifecycle.{created_object, create_at, try_to_allocate}

-- The object of a new value.
record IsCreated (layout : TypeLayout) (offset : ℕ) (bytes : List ℕ) (x : ResidentObject)
    : Type 0 where
  valid : IsObject x
  layout_is : x.layout ≡ layout
  offset_is : x.offset ≡ offset
  bytes_are : x.bytes ≡ bytes
  dirty : is_data_dirty x ≡ true
  cost : dirty_size x ≡ layout.size + total_metadata_backup_size

created_object-IsCreated :
    (layout : TypeLayout) (offset : ℕ) (bytes : List ℕ)
    → length bytes ≡ layout.size
    → layout.size + total_metadata_backup_size < usize_mod
    → IsCreated layout offset bytes (created_object layout offset false bytes)
unfolding created_object new_object with_flag
created_object-IsCreated layout offset bytes n small =
    let v = with_flag-IsObject data_dirty true refl base in
    let flag = flag-with_flag data_dirty data_dirty true base in
    record {
      valid = record { status_byte = v.status_byte; whole = v.whole; filled = n; small = small };
      layout_is = refl;
      offset_is = refl;
      bytes_are = refl;
      dirty = flag;
      cost =
          dirty_size-whole
            (record { status_byte = v.status_byte; whole = v.whole; filled = n; small = small })
          ∙ rw flag refl;
    }
  where
    base : IsObject (new_object layout offset false [] bytes)
    base = record {
      status_byte = new-IsStatus false;
      whole = get_flag-new false partial_dirtiness_tracking;
      filled = n;
      small = small;
    }

module _ {M S H : Type 0} (d : PersistentStorageModule S) (a : AllocatorModule H) (l : Layouts)
    (o : ObjectManagementModule M S H) (spec : AllocatorSpec a) (managed : IsManagement l spec o)
    (compiled : IsCompiled l) (initial : ℕ) where
  -- How `try_to_allocate` ends: the object is resident and dirty, with its data and paid for, or
  -- nothing has changed but for the heap of the allocator.
  pub data Creates (layout : TypeLayout) (offset : ℕ) (bytes : List ℕ) (r r' : Resident S H)
      : Bool → Type 0 where
    created :
        (p : ℕ)
        → Stays l spec initial r r'
        → has p r.resident_list ≡ false
        → r'.resident_list ≡ insert p r.resident_list
        → ((r'.objects p).offset ≡ offset)
          × ((r'.objects p).bytes ≡ bytes)
          × (is_data_dirty (r'.objects p) ≡ true)
        → r'.remaining_dirty_size + layout.size + total_metadata_backup_size
          ≡ r.remaining_dirty_size
        → Creates layout offset bytes r r' true
    returned :
        Kept l spec initial r r'
        → r'.resident_list ≡ r.resident_list
        → r'.remaining_dirty_size ≡ r.remaining_dirty_size
        → Creates layout offset bytes r r' false

  touched :
      {r : Resident S H} (p : ℕ) (m : M)
      → Books l spec initial r
      → has p r.resident_list ≡ true
      → Lent.Touches d a l o spec managed initial p r r
          (modify_object d a l o p (access_object d a l o p (m, r))).1
  touched p m b hp =
      let t = Lent.access_object-Touches d a l o spec managed initial p m (Kept-refl l spec b) hp in
      Lent.Touches-trans d a l o spec managed initial t
        (Lent.modify_object-Touches d a l o spec managed initial p _ t.kept (rw t.list hp))

  static-block :
      (layout : TypeLayout)
      → calc_resident_obj_layout_static l layout false ≡ (block_layout l layout, 0)
  unfolding calc_resident_obj_layout_static calc_resident_obj_layout_dynamic
  static-block layout = rw (compiled.fields layout) refl

  whole_cost :
      (n : ℕ)
      → n + total_metadata_backup_size < usize_mod
      → add_usize n (fresh_object_dirty_size false n) ≡ n + total_metadata_backup_size
  unfolding calc_dirty_metadata_dirty_byte_cnt
  whole_cost n small = omega (arith, small)

  module _ {r : Resident S H} (layout : TypeLayout) (offset : ℕ) (bytes : List ℕ) (m : M)
      (b : Books l spec initial r) (n : length bytes ≡ layout.size)
      (small : layout.size + total_metadata_backup_size < usize_mod) where
    create_at-Creates :
        layout.size + total_metadata_backup_size ≤ r.remaining_dirty_size
        → let cost = layout.size + total_metadata_backup_size in
          let e =
            create_at d a l o cost 0
              (created_object layout offset false bytes)
              (a.allocate (block_layout l layout) r.heap)
              (m, r) in
          Creates layout offset bytes r e.1.1 e.0
    unfolding insert_object
    create_at-Creates fits = go (a.allocate (block_layout l layout) r.heap).0 refl
      where
        go :
            (w : Option ℕ)
            → (a.allocate (block_layout l layout) r.heap).0 ≡ w
            → let e =
                create_at d a l o
                  (layout.size + total_metadata_backup_size)
                  0
                  (created_object layout offset false bytes)
                  (w, (a.allocate (block_layout l layout) r.heap).1)
                  (m, r) in
              Creates layout offset bytes r e.1.1 e.0
        go none e =
            returned (heap-Kept l spec b (spec.refused (block_layout l layout) r.heap _ b.blocks e))
              refl refl
        go (some q) e =
            let x = created_object layout offset false bytes in
            let c = created_object-IsCreated layout offset bytes n small in
            let free = spec.fresh (block_layout l layout) r.heap (blocks_of l r) q b.blocks e in
            let unlisted : has q r.resident_list ≡ false = ground (arith, free) in
            let live = spec.allocated (block_layout l layout) r.heap (blocks_of l r) q b.blocks e in
            let address = spec.address (block_layout l layout) _ _ q live (rw (==_self q) refl) in
            let at : add_usize q 0 ≡ q = omega (arith, address) in
            let paid : sub_usize r.remaining_dirty_size (layout.size + total_metadata_backup_size)
                ≡ r.remaining_dirty_size - (layout.size + total_metadata_backup_size) =
              omega (arith, fits, b.sum, b.fits) in
            let i =
              insert-Stays l spec initial q (layout.size + total_metadata_backup_size) x r.storage _
                b unlisted c.valid c.cost fits (rw c.layout_is live) in
            let listed : has q (insert q r.resident_list) ≡ true =
              has-insert q q r.resident_list ∙ rw (==_self q) refl in
            let t = touched q _ i.books listed in
            let self = put_self r.objects q x in
            rw (at, paid)
              (created q (Stays-trans l spec initial i (Kept-Stays l spec initial t.kept)) unlisted
                t.list
                (
                  t.object.offset ∙ rw self c.offset_is,
                  t.object.bytes ∙ rw self c.bytes_are,
                  t.object.flags data_dirty refl ∙ rw self c.dirty,
                )
                (omega (arith, t.left, fits)))

    -- For an allocator and an object management module that keep their laws and books in order;
    -- for a value of the type's size, which fits `usize` with its metadata, of a type without
    -- partial dirtiness tracking: `try_to_allocate` puts a new object with this offset and this
    -- value into the list, dirty and paid for, and leaves the objects in use; or it gives the
    -- value back and leaves the list, the remaining dirty size and the books.
    pub try_to_allocate-Creates :
        let e = try_to_allocate d a l o layout offset false bytes (m, r) in
        Creates layout offset bytes r e.1.1 e.0
    unfolding try_to_allocate
    try_to_allocate-Creates =
        rw (static-block layout, whole_cost layout.size small)
          (elim (Bool-cases
            (ltb r.remaining_dirty_size (layout.size + total_metadata_backup_size))) [
              | inl lacks ↦ rw lacks (returned (Kept-refl l spec b) refl refl)
              | inr fits ↦ rw fits (create_at-Creates (ground (arith, fits)))
            ])
