-- ===== src/Resident/References.antt =====
-- resident_object_manager/mod.rs: the references that the manager hands out and takes back. A pointer
-- to an object is the address of its metadata.
use vnv_heap.Base.{
  ℕ, Bool, true, false, not, ◌&&◌, Option, none, some, if◌then◌else◌, ◌==◌, ltb, leb,
}
use vnv_heap.Base.Outcome.{Outcome, ok, panic}
use vnv_heap.Base.Words.{sub_usize}
use vnv_heap.Status.{in_use, mutable_ref_active, data_dirty}
use vnv_heap.Storage.Device.{PersistentStorageModule}
use vnv_heap.Dirtiness.Wrapper.{Wrapper, get_non_dirty_size_in_range, set_range_dirty}
use vnv_heap.Resident.Object.{TypeLayout, ResidentObject, is_data_dirty}
use vnv_heap.Resident.Persist.{with_flag}
use vnv_heap.Resident.State.{AllocatorModule, Layouts, Resident, put}
use vnv_heap.Resident.Management.{ObjectManagementModule}
use vnv_heap.Resident.Require.{
  Manager, ◌then_call◌, find_element_mut, sync_dirty_data, require_resident,
}

-- A change of the object at an address.
abbrev pub update :
    {S H : Type 0} → ℕ → (ResidentObject → ResidentObject) → Resident S H → Resident S H
update p f r = record r { objects = put r.objects p (f (r.objects p)) }

module _ {M S H : Type 0} (d : PersistentStorageModule S) (a : AllocatorModule H) (l : Layouts)
    (o : ObjectManagementModule M S H) where
  -- `self.object_manager.access_object(..)` and `modify_object(..)`
  unfoldable pub access_object : ℕ → Manager M S H → Manager M S H
  access_object p (m, r) =
      let e = o.access_object m (r.objects p) in (e.0, record r { objects = put r.objects p e.1 })

  unfoldable pub modify_object : ℕ → Manager M S H → Manager M S H
  modify_object p (m, r) =
      let e = o.modify_object m (r.objects p) in (e.0, record r { objects = put r.objects p e.1 })

  -- Lends the object at an address, for reading or for writing.
  abbrev pub lend : ℕ → Manager M S H → Manager M S H
  lend p (m, r) = access_object p (m, update p (with_flag in_use true) r)

  abbrev pub lend_mut : ℕ → Manager M S H → Manager M S H
  lend_mut p (m, r) = modify_object p (
      access_object p
        (m, update p (λ x. with_flag mutable_ref_active true (with_flag in_use true x)) r))

  -- How many bytes are missing to make a clean object dirty.
  unfoldable pub bytes_to_sync : ℕ → Resident S H → ℕ
  bytes_to_sync p r =
      let size = (r.objects p).layout.size in
      if not (is_data_dirty (r.objects p)) && ltb r.remaining_dirty_size size
      then sub_usize size r.remaining_dirty_size
      else 0

  -- The object is made dirty as a whole, and lent.
  unfoldable pub make_dirty : ℕ → Manager M S H → Outcome ℕ × Manager M S H
  unfolding access_object modify_object
  make_dirty p (m, r) =
      let size = (r.objects p).layout.size in
      let r' = record (update p (with_flag data_dirty true) r) {
        remaining_dirty_size = sub_usize r.remaining_dirty_size size;
      } in
      if not (is_data_dirty (r.objects p))
      then if leb size r.remaining_dirty_size then (ok p, lend_mut p (m, r')) else (panic, (m, r))
      else (ok p, lend_mut p (m, r))

  unfoldable pub get_mut_at : ℕ → Manager M S H → Outcome ℕ × Manager M S H
  unfolding bytes_to_sync make_dirty sync_dirty_data
  get_mut_at p (m, r) =
      let bytes = bytes_to_sync p r in
      let e : Outcome (Unit {0}) × Manager M S H =
        if not (bytes == 0) then sync_dirty_data d a l o bytes (m, r) else (ok tt, (m, r)) in
      e then_call λ u x. make_dirty p x

  unfoldable pub get_mut : TypeLayout → ℕ → Bool → Manager M S H → Outcome ℕ × Manager M S H
  unfolding get_mut_at require_resident
  get_mut layout offset tracked x =
      require_resident d a l o layout offset tracked x then_call λ p y. get_mut_at p y

  unfoldable pub get_partial_mut : TypeLayout → ℕ → Manager M S H → Outcome ℕ × Manager M S H
  unfolding access_object modify_object require_resident
  get_partial_mut layout offset x =
      require_resident d a l o layout offset true x then_call λ p y. (ok p, lend_mut p y)

  unfoldable pub get_ref : TypeLayout → ℕ → Bool → Manager M S H → Outcome ℕ × Manager M S H
  unfolding access_object require_resident
  get_ref layout offset tracked x =
      require_resident d a l o layout offset tracked x then_call λ p y. (ok p, lend p y)

  -- `wrapper.set_range_dirty(..)`, which panics for a range that leaves the bit list. The wrapper was
  -- made before the sync; it points to the bit list of the object.
  abbrev pub range_made_dirty :
      ℕ → ℕ → Option Wrapper → Manager M S H → Outcome (Unit {0}) × Manager M S H
  range_made_dirty p dirty_size none x = (panic, x)
  range_made_dirty p dirty_size (some w) (m, r) = (
    ok tt,
    modify_object p (
        access_object p (
          m,
          update p (λ x. with_flag data_dirty true (record x { tracking = w }))
              (record r { remaining_dirty_size = sub_usize r.remaining_dirty_size dirty_size }),
        )),
  )

  abbrev pub pay_range : ℕ → ℕ → ℕ → Option ℕ → Manager M S H → Outcome (Unit {0}) × Manager M S H
  pay_range p addr_offset size none x = (panic, x)
  pay_range p addr_offset size (some dirty_size) (m, r) =
      let e : Outcome (Unit {0}) × Manager M S H =
        if ltb r.remaining_dirty_size dirty_size
        then sync_dirty_data d a l o (sub_usize dirty_size r.remaining_dirty_size) (m, r)
        else (ok tt, (m, r)) in
      e then_call λ u x.
      range_made_dirty p dirty_size (set_range_dirty (x.1.objects p).tracking addr_offset size) x

  unfoldable pub partial_mut_make_range_dirty :
      ℕ → ℕ → ℕ → Manager M S H → Outcome (Unit {0}) × Manager M S H
  unfolding access_object modify_object sync_dirty_data
  partial_mut_make_range_dirty p addr_offset size (m, r) =
      pay_range p addr_offset size
        (get_non_dirty_size_in_range (r.objects p).tracking addr_offset size) (m, r)

-- The references are given back. Of an object that is not resident nothing is tracked.
abbrev pub at_found :
    {S H : Type 0} → (ResidentObject → ResidentObject) → Option ℕ → Resident S H → Resident S H
at_found f none r = r
at_found f (some p) r = update p f r

module _ {S H : Type 0} where
  unfoldable pub release_partial_mut : ℕ → Resident S H → Resident S H
  release_partial_mut p r =
      update p (λ x. with_flag mutable_ref_active false (with_flag in_use false x)) r

  unfoldable pub release_mut : ℕ → Resident S H → Resident S H
  release_mut offset r =
      at_found (λ x. with_flag mutable_ref_active false (with_flag in_use false x))
        (find_element_mut offset r) r

  unfoldable pub release_ref : ℕ → Resident S H → Resident S H
  release_ref offset r = at_found (with_flag in_use false) (find_element_mut offset r) r
