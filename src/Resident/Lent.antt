-- ===== src/Resident/Lent.antt =====
-- The references that the manager lends: what they do to the books and to the status of the object.
use vnv_heap.Base.{ℕ, ◌≡◌, refl, sym, ◌∙◌, true, false, arith, if◌then◌else◌, ◌==◌}
use vnv_heap.Status.{Flag, in_use, mutable_ref_active, data_dirty, bit_of, get_flag}
use vnv_heap.Storage.Device.{PersistentStorageModule}
use vnv_heap.Buddy.Chain.{has}
use vnv_heap.Resident.Object.{ResidentObject, dirty_size, is_data_dirty}
use vnv_heap.Resident.Persist.{
  IsObject, SameData, SameData-trans, dirty_size-whole, with_flag, with_flag-IsObject,
  with_flag-SameData, flag-with_flag, dirty_size-with_flag,
}
use vnv_heap.Resident.State.{
  Resident, Layouts, put, AllocatorModule, object_in_use, object_mutable_ref_active,
}
use vnv_heap.Resident.Allocation.{AllocatorSpec}
use vnv_heap.Resident.Books.{Kept, Untouched, Untouched-trans, replace-Kept, put_self}
use vnv_heap.Resident.Management.{ObjectManagementModule, IsManagement}
use vnv_heap.Resident.References.{update, access_object, modify_object, lend, lend_mut}

pub Untouched-SameData : {x y : ResidentObject} → Untouched x y → SameData x y
Untouched-SameData u = record { layout = u.layout; offset = u.offset; bytes = u.bytes }

pub dirty_size-Untouched :
    {x y : ResidentObject} → IsObject x → IsObject y → Untouched x y → dirty_size y ≡ dirty_size x
dirty_size-Untouched v w u =
    dirty_size-whole w ∙ rw (u.flags data_dirty refl, u.layout) (sym (dirty_size-whole v))

abbrev lent : ResidentObject → ResidentObject
lent x = with_flag mutable_ref_active true (with_flag in_use true x)

lent-IsObject : {x : ResidentObject} → IsObject x → IsObject (lent x)
lent-IsObject v =
    with_flag-IsObject mutable_ref_active true refl (with_flag-IsObject in_use true refl v)

flag_lent :
    (g : Flag) {x : ResidentObject}
    → IsObject x
    → get_flag g (lent x).status ≡ (
        if bit_of mutable_ref_active == bit_of g
        then true
        else if bit_of in_use == bit_of g
        then true
        else get_flag g x.status)
flag_lent g v =
    flag-with_flag mutable_ref_active g true (with_flag-IsObject in_use true refl v)
    ∙ rw (flag-with_flag in_use g true v) refl

-- The status of an object that is lent for writing.
pub record IsLentMut (x : ResidentObject) : Type 0 where
  pub used : object_in_use x ≡ true
  pub mutable : object_mutable_ref_active x ≡ true

module _ {M S H : Type 0} (d : PersistentStorageModule S) (a : AllocatorModule H) (l : Layouts)
    (o : ObjectManagementModule M S H) (spec : AllocatorSpec a) (managed : IsManagement l spec o)
    (initial : ℕ) where
  -- A call that changes the object at `p` only, and of it the clock bits only. The state `r₀` is the
  -- one from which on the books are kept.
  pub record Touches (p : ℕ) (r₀ r r' : Resident S H) : Type 0 where
    pub kept : Kept l spec initial r₀ r'
    pub list : r'.resident_list ≡ r.resident_list
    pub left : r'.remaining_dirty_size ≡ r.remaining_dirty_size
    pub object : Untouched (r.objects p) (r'.objects p)

  pub Touches-trans :
      {p : ℕ} {r₀ r₁ r₂ r₃ : Resident S H}
      → Touches p r₀ r₁ r₂
      → Touches p r₀ r₂ r₃
      → Touches p r₀ r₁ r₃
  Touches-trans t t' = record {
    kept = t'.kept;
    list = t'.list ∙ t.list;
    left = t'.left ∙ t.left;
    object = Untouched-trans t.object t'.object;
  }

  module _ {r₀ : Resident S H} where
    clock-Touches :
        {r : Resident S H} (p : ℕ) (y : ResidentObject)
        → Kept l spec initial r₀ r
        → has p r.resident_list ≡ true
        → IsObject y × Untouched (r.objects p) y
        → Touches p r₀ r (record r { objects = put r.objects p y })
    clock-Touches {r} p y k hp c = record {
      kept =
          replace-Kept l spec p r.remaining_dirty_size y r.storage k hp c.0 (Untouched-SameData c.1)
            (omega (arith, dirty_size-Untouched (k.books.objects_valid p hp) c.0 c.1)) (λ u. c.1);
      list = refl;
      left = refl;
      object = rw (put_self r.objects p y) c.1;
    }

    pub access_object-Touches :
        {r : Resident S H} (p : ℕ) (m : M)
        → Kept l spec initial r₀ r
        → has p r.resident_list ≡ true
        → Touches p r₀ r (access_object d a l o p (m, r)).1
    unfolding access_object
    access_object-Touches {r} p m k hp =
        clock-Touches p _ k hp (managed.access_keeps m (k.books.objects_valid p hp))

    pub modify_object-Touches :
        {r : Resident S H} (p : ℕ) (m : M)
        → Kept l spec initial r₀ r
        → has p r.resident_list ≡ true
        → Touches p r₀ r (modify_object d a l o p (m, r)).1
    unfolding modify_object
    modify_object-Touches {r} p m k hp =
        clock-Touches p _ k hp (managed.modify_keeps m (k.books.objects_valid p hp))

    -- An object that was not in use is lent for writing: nothing but its status changes.
    pub lend_mut-Kept :
        {r : Resident S H} (p : ℕ) (m : M)
        → Kept l spec initial r₀ r
        → has p r.resident_list ≡ true
        → object_in_use (r₀.objects p) ≡ false
        → let r' = (lend_mut d a l o p (m, r)).1 in
          Kept l spec initial r₀ r'
          × (r'.resident_list ≡ r.resident_list)
          × (r'.remaining_dirty_size ≡ r.remaining_dirty_size)
          × IsLentMut (r'.objects p)
          × (is_data_dirty (r'.objects p) ≡ is_data_dirty (r.objects p))
    lend_mut-Kept {r} p m k hp idle =
        let x = r.objects p in
        let v = k.books.objects_valid p hp in
        let v' = with_flag-IsObject in_use true refl v in
        let free : dirty_size (lent x) ≡ dirty_size x =
          dirty_size-with_flag mutable_ref_active true refl refl v'
          ∙ dirty_size-with_flag in_use true refl refl v in
        let same =
          SameData-trans (with_flag-SameData in_use true x)
            (with_flag-SameData mutable_ref_active true _) in
        let k' =
          replace-Kept l spec p r.remaining_dirty_size (lent x) r.storage k hp (lent-IsObject v)
            same (omega (arith, free)) (λ u. absurd (ground arith)) in
        let self = put_self r.objects p (lent x) in
        let t = access_object-Touches p m k' hp in
        let m' = (access_object d a l o p (m, update p lent r)).0 in
        let u = Touches-trans t (modify_object-Touches p m' t.kept (rw t.list hp)) in
        (
          u.kept,
          u.list,
          u.left,
          record {
            used = u.object.flags in_use refl ∙ rw self (flag_lent in_use v);
            mutable =
                u.object.flags mutable_ref_active refl ∙ rw self (flag_lent mutable_ref_active v);
          },
          u.object.flags data_dirty refl ∙ rw self (flag_lent data_dirty v),
        )

    -- An object that was not in use is lent for reading.
    pub lend-Kept :
        {r : Resident S H} (p : ℕ) (m : M)
        → Kept l spec initial r₀ r
        → has p r.resident_list ≡ true
        → object_in_use (r₀.objects p) ≡ false
        → let r' = (lend d a l o p (m, r)).1 in
          Kept l spec initial r₀ r'
          × (r'.resident_list ≡ r.resident_list)
          × (object_in_use (r'.objects p) ≡ true)
          × (object_mutable_ref_active (r'.objects p) ≡ object_mutable_ref_active (r.objects p))
    lend-Kept {r} p m k hp idle =
        let x = r.objects p in
        let v = k.books.objects_valid p hp in
        let k' =
          replace-Kept l spec p r.remaining_dirty_size (with_flag in_use true x) r.storage k hp
            (with_flag-IsObject in_use true refl v) (with_flag-SameData in_use true x)
            (omega (arith, dirty_size-with_flag in_use true refl refl v))
            (λ u. absurd (ground arith)) in
        let self = put_self r.objects p (with_flag in_use true x) in
        let t = access_object-Touches p m k' hp in
        (
          t.kept,
          t.list,
          t.object.flags in_use refl ∙ rw self (flag-with_flag in_use in_use true v),
          t.object.flags mutable_ref_active refl
              ∙ rw self (flag-with_flag in_use mutable_ref_active true v),
        )
