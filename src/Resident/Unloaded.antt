-- ===== src/Resident/Unloaded.antt =====
-- `unload_object`, `flush_object` and `drop` of the manager, for objects without partial dirtiness
-- tracking.
use vnv_heap.Base.{
  Bool, ◌∙◌, ℕ, ◌+◌, ◌≡◌, refl, sym, fun_ext, ◌==◌, true, false, Option, none, some, arith,
  if◌then◌else◌, inl, inr, Bool-cases,
}
use vnv_heap.Base.Outcome.{Outcome, ok, err, panic, out_of_fuel}
use vnv_heap.Storage.Device.{PersistentStorageModule}
use vnv_heap.Buddy.Chain.{has}
use vnv_heap.Buddy.Remove.{erase}
use vnv_heap.Resident.Object.{
  TypeLayout, ResidentObject, dirty_size, is_data_dirty, persist_user_data,
  persist_user_data_dynamic,
}
use vnv_heap.Resident.Persist.{
  Synced, skipped, written, failed, persist-Synced, persist_user_data-dynamic, IsObject, is_ok,
  written_back, persist-written_back,
}
use vnv_heap.Resident.State.{
  Resident, Layouts, AllocatorModule, Call, object_in_use, calc_resident_obj_layout_static,
  calc_resident_obj_layout_dynamic, unload_resident_object, with_object, put, sync_end, unload_end,
  remove_item,
}
use vnv_heap.Resident.Allocation.{AllocatorSpec, IsCompiled, block_layout}
use vnv_heap.Resident.Books.{Books, Kept, Kept-refl, put_self}
use vnv_heap.Resident.Items.{
  Unloaded, gone, remains, unload_end-Kept, unload_end-Unloaded, sync_end-Kept,
}
use vnv_heap.Resident.Require.{Manager, find_element_mut}
use vnv_heap.Resident.Loaded.{find_in-has}
use vnv_heap.Resident.Management.{ObjectManagementModule}
use vnv_heap.Resident.Lifecycle.{expect_unloaded, unload_object, flushed, flush_object, drop}

put-id : (objects : ℕ → ResidentObject) (p : ℕ) → put objects p (objects p) ≡ objects
put-id objects p = fun_ext λ q. elim (Bool-cases (q == p)) [
  | inl here ↦ let at : q ≡ p = ground arith in rw (here, at) refl
  | inr other ↦ rw other refl
]

module _ {S H : Type 0} (d : PersistentStorageModule S) (a : AllocatorModule H) (l : Layouts)
    (spec : AllocatorSpec a) (compiled : IsCompiled l) (initial : ℕ) where
  static_layout :
      (layout : TypeLayout) (x : ResidentObject)
      → x.layout ≡ layout
      → let t = calc_resident_obj_layout_static l layout false in
        (t.0 ≡ block_layout l x.layout) × (t.1 ≡ 0)
  unfolding calc_resident_obj_layout_static calc_resident_obj_layout_dynamic
  static_layout layout x e = rw e (sym (compiled.fields layout), refl)

  -- How `unload_object` ends. A failing write is a panic, which leaves the object in the list.
  pub data Unloads (offset : ℕ) (r r' : Resident S H) : Outcome (Unit {0}) → Type 0 where
    absent : find_element_mut offset r ≡ none → r' ≡ r → Unloads offset r r' (ok tt)
    busy :
        {p : ℕ}
        → find_element_mut offset r ≡ some p
        → object_in_use (r.objects p) ≡ true
        → r' ≡ r
        → Unloads offset r r' err
    unloaded :
        {p : ℕ}
        → find_element_mut offset r ≡ some p
        → Kept l spec initial r r'
        → r'.resident_list ≡ erase p r.resident_list
        → r'.remaining_dirty_size ≡ r.remaining_dirty_size + dirty_size (r.objects p)
        → written_back d (r.objects p) r.storage ≡ (true, r'.storage)
        → Unloads offset r r' (ok tt)
    unwritten :
        {p : ℕ}
        → find_element_mut offset r ≡ some p
        → Kept l spec initial r r'
        → r'.resident_list ≡ r.resident_list
        → written_back d (r.objects p) r.storage ≡ (false, r'.storage)
        → Unloads offset r r' panic

  unload_end-result :
      (p prev : ℕ) (layout : TypeLayout × ℕ) (w : Outcome ℕ) (r : Resident S H)
      → let e = unload_end d a l p prev layout w r in
        ◌≡◌ {A = Bool × S} (is_ok w, r.storage) (is_ok e.0, e.1.storage)
  unfolding unload_end remove_item
  unload_end-result p prev layout (ok n) r = refl
  unload_end-result p prev layout err r = refl
  unload_end-result p prev layout panic r = refl
  unload_end-result p prev layout out_of_fuel r = refl

  -- It succeeds where the write of the object does, and has made that write.
  unload_resident_object-written :
      (r : Resident S H) (layout : TypeLayout) (p : ℕ)
      → IsObject (r.objects p)
      → let e = unload_resident_object d a l p layout false false r in
        written_back d (r.objects p) r.storage ≡ (is_ok e.0, e.1.storage)
  unfolding unload_resident_object
  unload_resident_object-written r layout p v =
      let w = persist_user_data_dynamic d (r.objects p) r.storage in
      rw (persist_user_data-dynamic d (r.objects p) r.storage) (
        persist-written_back d r.storage v
        ∙ unload_end-result p _ _ w.0 (with_object d a l p w.1 r))

  unload_resident_object-Unloaded :
      {r : Resident S H} (layout : TypeLayout) (p : ℕ)
      → Books l spec initial r
      → has p r.resident_list ≡ true
      → (r.objects p).layout ≡ layout
      → object_in_use (r.objects p) ≡ false
      → let e = unload_resident_object d a l p layout false false r in
        Kept l spec initial r e.1 × Unloaded d a l spec p r e.1 e.0
  unfolding unload_resident_object
  unload_resident_object-Unloaded {r} layout p b hp el idle =
      rw (persist_user_data-dynamic d (r.objects p) r.storage) (
        unload_end-Kept d a l spec p _ _ (static_layout layout (r.objects p) el) b hp idle
          (persist-Synced d r.storage (b.objects_valid p hp)))

  -- For an allocator that keeps its laws and books in order, and a type without partial
  -- dirtiness tracking whose layout is that of the object: `unload_object` does nothing where no
  -- object is resident at the offset, and refuses an object in use. Of any other object, if its
  -- data are dirty, it writes all bytes at its offset, and nothing else. Where this write
  -- succeeds or is not needed, it takes the object out and gives back its dirty size. Where the
  -- write fails it panics, and the object stays.
  pub unload_object-Unloads :
      {r : Resident S H} (layout : TypeLayout) (offset : ℕ)
      → Books l spec initial r
      → ((p : ℕ) → find_element_mut offset r ≡ some p → (r.objects p).layout ≡ layout)
      → let e = unload_object d a l layout offset false r in Unloads offset r e.1 e.0
  unfolding unload_object
  unload_object-Unloads {r} layout offset b typed = go (find_element_mut offset r) refl
    where
      expected :
          (p : ℕ) (w : Outcome (Unit {0})) (r' : Resident S H)
          → find_element_mut offset r ≡ some p
          → Kept l spec initial r r'
          → Unloaded d a l spec p r r' w
          → written_back d (r.objects p) r.storage ≡ (is_ok w, r'.storage)
          → let e = expect_unloaded d a l (w, r') in Unloads offset r e.1 e.0
      expected p w r' e k (gone more less) wrote = unloaded e k less more wrote
      expected p w r' e k (remains same kept) wrote = unwritten e k kept wrote

      go :
          (w : Option ℕ)
          → find_element_mut offset r ≡ w
          → let e : Call S H Unit = elim w [
            | none ↦ (ok tt, r)
            | some p ↦
                let e = unload_resident_object d a l p layout false false r in
                if object_in_use (r.objects p) then (err, r) else expect_unloaded d a l e
          ] in
            Unloads offset r e.1 e.0
      go none e = absent e refl
      go (some p) e = elim (Bool-cases (object_in_use (r.objects p))) [
        | inl used ↦ rw used (busy e used refl)
        | inr idle ↦
            let hp = find_in-has r.objects offset p r.resident_list e in
            let u = unload_resident_object-Unloaded layout p b hp.0 (typed p e) idle in
            rw idle (
              expected p _ _ e u.0 u.1
                (unload_resident_object-written r layout p (b.objects_valid p hp.0)))
      ]

  -- How `flush_object` ends.
  pub data Flushes (offset : ℕ) (r r' : Resident S H) : Outcome (Unit {0}) → Type 0 where
    not_resident : find_element_mut offset r ≡ none → r' ≡ r → Flushes offset r r' (ok tt)
    flushed_clean :
        {p : ℕ}
        → find_element_mut offset r ≡ some p
        → Kept l spec initial r r'
        → r'.resident_list ≡ r.resident_list
        → is_data_dirty (r'.objects p) ≡ false
        → written_back d (r.objects p) r.storage ≡ (true, r'.storage)
        → Flushes offset r r' (ok tt)
    not_written :
        {p : ℕ}
        → find_element_mut offset r ≡ some p
        → written_back d (r.objects p) r.storage ≡ (false, r'.storage)
        → Kept l spec initial r r'
        → r'.resident_list ≡ r.resident_list
        → r'.remaining_dirty_size ≡ r.remaining_dirty_size
        → Flushes offset r r' err

  flushed-Flushes :
      {r : Resident S H} (offset p : ℕ) (s : S)
      → Books l spec initial r
      → find_element_mut offset r ≡ some p
      → is_data_dirty (r.objects p) ≡ true
      → object_in_use (r.objects p) ≡ false
      → {w : Outcome ℕ} {x : ResidentObject} → Synced (r.objects p) w x
      → written_back d (r.objects p) r.storage ≡ (is_ok w, s)
      → let e = flushed d a l w (with_object d a l p (x, s) r) in Flushes offset r e.1 e.0
  unfolding sync_end
  flushed-Flushes {r} offset p s b e dirty idle (skipped clean) wrote =
      absurd (ground (arith, dirty))
  flushed-Flushes {r} offset p s b e dirty idle (written {n} {o'} d' v s' cost clean) wrote =
      let hp = find_in-has r.objects offset p r.resident_list e in
      let k =
        sync_end-Kept d a l spec p s b hp.0 (ground (arith, idle)) (written d' v s' cost clean) in
      flushed_clean e k.0 refl (rw (put_self r.objects p o') clean) wrote
  flushed-Flushes {r} offset p s b e dirty idle failed wrote =
      let hp = find_in-has r.objects offset p r.resident_list e in
      let k = sync_end-Kept d a l spec p s b hp.0 (ground (arith, idle)) failed in
      not_written e wrote k.0 refl refl

  -- For an allocator that keeps its laws and books in order, and an object without partial
  -- dirtiness tracking that is not in use: if its data are dirty, `flush_object` writes all
  -- bytes of the object at its offset, and nothing else. Where this write succeeds or is not
  -- needed, it leaves the object resident and clean, and where the write fails it returns an
  -- error and changes neither the list nor the remaining dirty size. Where no object is resident
  -- it does nothing.
  pub flush_object-Flushes :
      {r : Resident S H} (offset : ℕ)
      → Books l spec initial r
      → ((p : ℕ) → find_element_mut offset r ≡ some p → object_in_use (r.objects p) ≡ false)
      → let e = flush_object d a l offset r in Flushes offset r e.1 e.0
  unfolding flush_object
  flush_object-Flushes {r} offset b idle = go (find_element_mut offset r) refl
    where
      go :
          (w : Option ℕ)
          → find_element_mut offset r ≡ w
          → let e : Call S H Unit = elim w [
            | none ↦ (ok tt, r)
            | some p ↦
                let w = persist_user_data d (r.objects p) r.storage in
                if is_data_dirty (r.objects p)
                then flushed d a l w.0 (with_object d a l p w.1 r)
                else (ok tt, r)
          ] in
            Flushes offset r e.1 e.0
      go none e = not_resident e refl
      go (some p) e = elim (Bool-cases (is_data_dirty (r.objects p))) [
        | inr clean ↦ rw clean (flushed_clean e (Kept-refl l spec b) refl clean (rw clean refl))
        | inl dirty ↦
            let hp = find_in-has r.objects offset p r.resident_list e in
            rw (dirty, persist_user_data-dynamic d (r.objects p) r.storage)
              (flushed-Flushes offset p _ b e dirty (idle p e)
                (persist-Synced d r.storage (b.objects_valid p hp.0))
                (persist-written_back d r.storage (b.objects_valid p hp.0)))
      ]

  -- How the drop of an object ends that needs no drop of its own: no object is left at its address,
  -- its dirty size is given back, and nothing is written.
  pub data Drops (offset : ℕ) (r r' : Resident S H) : Outcome (Unit {0}) → Type 0 where
    not_there : find_element_mut offset r ≡ none → r' ≡ r → Drops offset r r' (ok tt)
    dropped :
        {p : ℕ}
        → find_element_mut offset r ≡ some p
        → Kept l spec initial r r'
        → r'.resident_list ≡ erase p r.resident_list
        → r'.remaining_dirty_size ≡ r.remaining_dirty_size + dirty_size (r.objects p)
        → r'.storage ≡ r.storage
        → Drops offset r r' (ok tt)

  unload_unsynced :
      {r : Resident S H} (layout : TypeLayout) (p : ℕ)
      → Books l spec initial r
      → has p r.resident_list ≡ true
      → (r.objects p).layout ≡ layout
      → object_in_use (r.objects p) ≡ false
      → let e = unload_resident_object d a l p layout true false r in
        Kept l spec initial r e.1
        × Unloaded d a l spec p r e.1 e.0
        × (e.0 ≡ ok tt)
        × (e.1.storage ≡ r.storage)
  unfolding unload_resident_object unload_end remove_item
  unload_unsynced {r} layout p b hp el idle =
      let u =
        unload_end-Unloaded d a l spec p 0 r.storage _ (r.objects p)
          (static_layout layout (r.objects p) el) b hp idle in
      let u' = rw (put-id r.objects p) at u in (u'.0, u'.1, refl, refl)

  -- For an allocator that keeps its laws and books in order, a type that needs no drop and has
  -- no partial dirtiness tracking, whose layout is that of the object, and an object that is not
  -- in use: `drop` takes the object out without a write and gives back its dirty size, and
  -- succeeds where none is resident.
  pub drop-Drops :
      {M : Type 0} (o : ObjectManagementModule M S H) {r : Resident S H} (m : M)
      (layout : TypeLayout) (offset : ℕ)
      → Books l spec initial r
      → ((p : ℕ)
          → find_element_mut offset r ≡ some p
          → ((r.objects p).layout ≡ layout) × (object_in_use (r.objects p) ≡ false))
      → let e = drop d a l o layout offset false false (m, r) in Drops offset r e.1.1 e.0
  unfolding drop
  drop-Drops {M} o {r} m layout offset b typed = go (find_element_mut offset r) refl
    where
      ended :
          (p : ℕ) (w : Outcome (Unit {0})) (r' : Resident S H)
          → find_element_mut offset r ≡ some p
          → Kept l spec initial r r'
          → Unloaded d a l spec p r r' w
          → w ≡ ok tt
          → r'.storage ≡ r.storage
          → Drops offset r r' w
      ended p w r' e k (gone more less) t s = dropped e k less more s
      ended p w r' e k (remains more less) t s = absurd (cc)

      go :
          (w : Option ℕ)
          → find_element_mut offset r ≡ w
          → let e : Outcome (Unit {0}) × Manager M S H = elim w [
            | none ↦ (ok tt, (m, r))
            | some p ↦ let e = unload_resident_object d a l p layout true false r in (e.0, (m, e.1))
          ] in
            Drops offset r e.1.1 e.0
      go none e = not_there e refl
      go (some p) e =
          let hp = find_in-has r.objects offset p r.resident_list e in
          let t = typed p e in
          let u = unload_unsynced layout p b hp.0 t.0 t.1 in ended p _ _ e u.0 u.1 u.2 u.3
