-- ===== src/Resident/Loaded.antt =====
-- `require_resident` of the manager gives a resident object, for a type without partial dirtiness
-- tracking.
use vnv_heap.Base.{
  ℕ, ◌+◌, ◌-◌, ◌≤◌, ◌<◌, ◌≡◌, refl, sym, ap, ◌∙◌, Bool, true, false, List, arith, ◌==◌, ◌∷◌, [],
  ◌⊎◌, inl, inr, fun_ext, Option, none, some, Bool-cases, ==_self, length,
}
use vnv_heap.Base.Outcome.{Outcome, ok, err, panic}
use vnv_heap.Base.Words.{usize_mod, add_usize, sub_usize}
use vnv_heap.Storage.Device.{PersistentStorageModule}
use vnv_heap.Buddy.Chain.{has}
use vnv_heap.Buddy.Push.{insert, has-insert}
use vnv_heap.Buddy.Remove.{erase, has-erase_sub}
use vnv_heap.Resident.Object.{
  TypeLayout, ResidentObject, dirty_size, total_metadata_backup_size,
  calc_dirty_metadata_dirty_byte_cnt, load_user_data,
}
use vnv_heap.Resident.Persist.{SameData}
use vnv_heap.Resident.Total.{has-erase_gone}
use vnv_heap.Resident.State.{
  Resident, Layouts, put, AllocatorModule, calc_resident_obj_layout_static,
  calc_resident_obj_layout_dynamic, give_back, object_in_use,
}
use vnv_heap.Resident.Allocation.{AllocatorSpec, IsCompiled, block_layout}
use vnv_heap.Resident.Books.{Kept, remove-Kept, blocks_of, put_self, put-each}
use vnv_heap.Resident.Management.{ObjectManagementModule, IsManagement}
use vnv_heap.Resident.Require.{find_in, find_element_mut, fresh_object, loaded, load_object}
use vnv_heap.Resident.Insert.{
  IsFresh, fresh_object-IsFresh, Stays, Kept-Stays, Stays-trans, insert-Stays,
}
use vnv_heap.Resident.Required.{Fills}

put-put :
    (objects : ℕ → ResidentObject) (p : ℕ) (x y : ResidentObject)
    → put (put objects p x) p y ≡ put objects p y
put-put objects p x y =
    fun_ext λ q. elim (Bool-cases (q == p)) [ inl here ↦ rw here refl | inr other ↦ rw other refl ]

with_bytes-IsFresh :
    {layout : TypeLayout} {offset : ℕ} {o : ResidentObject} (bytes : List ℕ)
    → length bytes ≡ layout.size
    → IsFresh layout offset o
    → IsFresh layout offset (record o { bytes = bytes })
unfolding dirty_size
with_bytes-IsFresh {o = o} bytes n f = record {
  valid = record {
    status_byte = f.valid.status_byte;
    whole = f.valid.whole;
    filled = n ∙ ap (λ (x : TypeLayout). x.size) (sym f.layout_is);
    small = f.valid.small;
  };
  layout_is = f.layout_is;
  offset_is = f.offset_is;
  idle = f.idle;
  clean = f.clean;
}

-- An object that the list search finds is in the list and has the storage offset.
pub find_in-has :
    (objects : ℕ → ResidentObject) (offset p : ℕ) (ps : List ℕ)
    → find_in objects offset ps ≡ some p
    → (has p ps ≡ true) × ((objects p).offset ≡ offset)
unfolding find_in
find_in-has objects offset p [] h = absurd (ground arith)
find_in-has objects offset p (q ∷ ps) h = elim (Bool-cases ((objects q).offset == offset)) [
  | inl here ↦
      let at : q ≡ p = ground arith in
      (ground arith, ground (arith, ap (λ k. (objects k).offset) at))
  | inr other ↦
      let rest = find_in-has objects offset p ps (ground arith) in (ground (arith, rest.0), rest.1)
]

module _ {M S H : Type 0} (d : PersistentStorageModule S) (a : AllocatorModule H) (l : Layouts)
    (o : ObjectManagementModule M S H) (spec : AllocatorSpec a) (managed : IsManagement l spec o)
    (fills : Fills d) (compiled : IsCompiled l) where
  -- How a request for an object ends: it is resident, or an error has left no new object, or the
  -- allocator has no space although objects were unloaded for it.
  pub data Required (initial : ℕ) (layout : TypeLayout) (offset : ℕ) (r r' : Resident S H)
      : Outcome ℕ → Type 0 where
    ready :
        {p : ℕ}
        → Stays l spec initial r r'
        → has p r'.resident_list ≡ true
        → (r'.objects p).offset ≡ offset
        → (object_in_use (r'.objects p) ≡ false) ⊎ ((find_element_mut offset r ≡ some p) × (r' ≡ r))
        → Required initial layout offset r r' (ok p)
    unavailable : Kept l spec initial r r' → Required initial layout offset r r' err
    no_space :
        (x : Resident S H)
        → Kept l spec initial r x
        → (a.allocate (block_layout l layout) x.heap).0 ≡ none
        → Required initial layout offset r r' panic

  -- How the read of the data of an object ends.
  data Read (x : ResidentObject) : Bool × (ResidentObject × S) → Type 0 where
    filled :
        {s : S} (bytes : List ℕ)
        → length bytes ≡ x.layout.size
        → Read x (true, (record x { bytes = bytes }, s))
    unread : {s : S} → Read x (false, (x, s))

  load_user_data-Read : (x : ResidentObject) (s : S) → Read x (load_user_data d x s)
  unfolding load_user_data
  load_user_data-Read x s = let r = d.read (add_usize x.offset 0) x.layout.size s in go r.0 r.1 refl
    where
      go :
          (w : Option (List ℕ)) (s' : S)
          → (d.read (add_usize x.offset 0) x.layout.size s).0 ≡ w
          → let e : Bool × (ResidentObject × S) = elim w [
            | none ↦ (false, (x, s'))
            | some bytes ↦ (true, (record x { bytes = bytes }, s'))
          ] in
            Read x e
      go none s' e = unread
      go (some bytes) s' e = filled bytes (fills _ _ s bytes e)

  module _ {initial : ℕ} {r : Resident S H} (layout : TypeLayout) (offset q : ℕ) (m : M)
      (x : Resident S H) (k : Kept l spec initial r x)
      (fits : total_metadata_backup_size ≤ x.remaining_dirty_size)
      (e : (a.allocate (block_layout l layout) x.heap).0 ≡ some q) where
    unlisted : has q x.resident_list ≡ false
    unlisted =
        let free = spec.fresh (block_layout l layout) x.heap (blocks_of l x) q k.books.blocks e in
        ground (arith, free)

    -- The state with a fresh object in the list.
    abbrev listed : ResidentObject → S → Resident S H
    listed y s = record {
      storage = s;
      heap = (a.allocate (block_layout l layout) x.heap).1;
      remaining_dirty_size = x.remaining_dirty_size - total_metadata_backup_size;
      resident_list = insert q x.resident_list;
      objects = put x.objects q y;
    }

    listed-Stays :
        (y : ResidentObject) (s : S) → IsFresh layout offset y → Stays l spec initial r (listed y s)
    listed-Stays y s f = Stays-trans l spec initial (Kept-Stays l spec initial k) (
        insert-Stays l spec initial q total_metadata_backup_size y s _ k.books unlisted f.valid
          f.clean fits
          (rw f.layout_is
            (spec.allocated (block_layout l layout) x.heap (blocks_of l x) q k.books.blocks e)))

    -- An object whose data cannot be read is taken out again.
    taken_back :
        (y : ResidentObject) (s s' : S)
        → IsFresh layout offset y
        → Kept l spec initial r (
            give_back total_metadata_backup_size (record {
              storage = s';
              heap = a.deallocate q (block_layout l layout) (listed y s).heap;
              remaining_dirty_size = (listed y s).remaining_dirty_size;
              resident_list = erase q (insert q x.resident_list);
              objects = put x.objects q y;
            }))
    taken_back y s s' f =
        let i = listed-Stays y s f in
        let same : put (put x.objects q y) q y ≡ put x.objects q y = put-put x.objects q y y in
        let there : has q (insert q x.resident_list) ≡ true =
          has-insert q q x.resident_list ∙ rw (==_self q) refl in
        let self = put_self x.objects q y in
        let out =
          remove-Kept l spec q
            (add_usize (listed y s).remaining_dirty_size total_metadata_backup_size) y s'
            (a.deallocate q (block_layout l layout) (listed y s).heap) i.books there
            (rw self f.idle) (rw (self, f.layout_is) refl)
            (rw (self, f.clean) (omega (arith, fits, k.books.sum, k.books.fits))) in
        let b = rw same at out in
        record {
          books = b.books;
          shrinks = λ p h. k.shrinks p (others p h);
          same = λ p h.
              put-each (λ j z. SameData (r.objects j) z) x.objects q p y
                (λ at. absurd (ground (arith, at, unlisted, others p h)))
                (λ at. k.same p (others p h));
          stays = (Stays-trans l spec initial i (Kept-Stays l spec initial b)).stays;
        }
      where
        others :
            (p : ℕ)
            → has p (erase q (insert q x.resident_list)) ≡ true
            → has p x.resident_list ≡ true
        others p h = elim (Bool-cases (p == q)) [
          | inl here ↦
              let at : p ≡ q = ground arith in
              let distinct = (listed-Stays y s f).books.distinct in
              let gone = has-erase_gone q (insert q x.resident_list) distinct in
              absurd (ground (arith, gone, rw at at h))
          | inr other ↦
              let before = has-erase_sub p q (insert q x.resident_list) h in
              ground (arith, before, has-insert p q x.resident_list)
        ]

    loaded-Required :
        (y : ResidentObject) (s : S) (w : Bool × (ResidentObject × S))
        → IsFresh layout offset y
        → Read y w
        → let z =
            loaded d a l o total_metadata_backup_size q
              (block_layout l layout)
              q
              m
              (listed y s)
              w in
          Required initial layout offset r z.1.1 z.0
    loaded-Required y s w f (filled {s = s'} bytes n) =
        let f' = with_bytes-IsFresh bytes (n ∙ ap (λ (t : TypeLayout). t.size) f.layout_is) f in
        let y' : ResidentObject = record y { bytes = bytes } in
        rw (put-put x.objects q y y') (
          ready (listed-Stays y' s' f') (has-insert q q x.resident_list ∙ rw (==_self q) refl)
            (rw (==_self q) f.offset_is) (inl (rw (==_self q) f.idle)))
    loaded-Required y s w f (unread {s = s'}) = unavailable (taken_back y s s' f)

  pub load_object-Required :
      {initial : ℕ} {r : Resident S H} (layout : TypeLayout) (offset q : ℕ) (m : M)
      (x : Resident S H)
      → layout.size + total_metadata_backup_size < usize_mod
      → Kept l spec initial r x
      → total_metadata_backup_size ≤ x.remaining_dirty_size
      → (a.allocate (block_layout l layout) x.heap).0 ≡ some q
      → let h = (a.allocate (block_layout l layout) x.heap).1 in
        let e = load_object d a l o layout offset false q (m, record x { heap = h }) in
        Required initial layout offset r e.1.1 e.0
  unfolding load_object calc_resident_obj_layout_static calc_resident_obj_layout_dynamic
      calc_dirty_metadata_dirty_byte_cnt
  load_object-Required {initial} {r} layout offset q m x small k fits e =
      let live = spec.allocated (block_layout l layout) x.heap (blocks_of l x) q k.books.blocks e in
      let address = spec.address (block_layout l layout) _ _ q live (rw (==_self q) refl) in
      let at : add_usize q 0 ≡ q = omega (arith, address) in
      let paid : sub_usize x.remaining_dirty_size total_metadata_backup_size
          ≡ x.remaining_dirty_size - total_metadata_backup_size =
        omega (arith, fits, k.books.sum, k.books.fits) in
      rw (at, paid, sym (compiled.fields layout))
        (loaded-Required layout offset q m x k fits e (fresh_object layout offset false) x.storage _
          (fresh_object-IsFresh layout offset small) (load_user_data-Read _ _))
