-- ===== src/Resident/State.antt =====
-- The state that the resident object manager shares with its object management module, and the
-- operations of one item of the resident list: resident_object_metadata.rs, resident_object.rs,
-- resident_list.rs and modules/object_management/mod.rs.
use vnv_heap.Base.{
  ℕ, Bool, true, false, ◌&&◌, List, [], ◌∷◌, Option, none, some, if◌then◌else◌, ◌==◌,
}
use vnv_heap.Base.Outcome.{Outcome, ok, err, panic, out_of_fuel}
use vnv_heap.Base.Words.{add_usize, sub_usize}
use vnv_heap.Status.{get_flag, in_use, mutable_ref_active}
use vnv_heap.Storage.Device.{PersistentStorageModule}
use vnv_heap.Dirtiness.Info.{calc_bit_and_byte_count}
use vnv_heap.Buddy.Remove.{erase}
use vnv_heap.Resident.Object.{
  TypeLayout, ResidentObject, dirty_size, is_data_dirty, is_tracked, persist_user_data_dynamic,
  persist_user_data,
}

-- `AllocatorModule`: `allocate` gives the address, or `none` for `Err(())`.
pub record AllocatorModule (H : Type 0) : Type 0 where
  pub init : ℕ → ℕ → H → H
  pub allocate : TypeLayout → H → Option ℕ × H
  pub deallocate : ℕ → TypeLayout → H → H

-- What the program takes from `core::alloc::Layout` and from the compiler: `extend` and
-- `pad_to_align`, and the layouts of `ResidentObjectMetadata` and of a `ResidentObject` of a type.
pub record Layouts : Type 0 where
  pub extend : TypeLayout → TypeLayout → TypeLayout × ℕ
  pub pad_to_align : TypeLayout → TypeLayout
  pub metadata : TypeLayout
  pub resident_object : TypeLayout → TypeLayout

pub record Resident (S H : Type 0) : Type 0 where
  pub storage : S
  pub heap : H
  pub remaining_dirty_size : ℕ
  -- The addresses of the metadata of the resident objects, in the order of the list.
  pub resident_list : List ℕ
  -- The object whose metadata lie at an address.
  pub objects : ℕ → ResidentObject

abbrev pub put : (ℕ → ResidentObject) → ℕ → ResidentObject → ℕ → ResidentObject
put objects p o q = if q == p then o else objects q

abbrev pub calc_resident_obj_partial_dirtiness_buf_layout : ℕ → TypeLayout
calc_resident_obj_partial_dirtiness_buf_layout data_size = record {
  size = (calc_bit_and_byte_count data_size).1;
  align = 1;
}

module _ (l : Layouts) where
  -- `repr_c_layout` of util.rs over the fields that are left.
  unfoldable pub repr_c_layout : TypeLayout → List TypeLayout → TypeLayout
  repr_c_layout layout [] = l.pad_to_align layout
  repr_c_layout layout (field ∷ fields) = repr_c_layout (l.extend layout field).0 fields

  unfoldable pub calc_resident_obj_layout_static : TypeLayout → Bool → TypeLayout × ℕ
  calc_resident_obj_layout_static layout use_partial_dirtiness_tracking =
      let e =
        l.extend (calc_resident_obj_partial_dirtiness_buf_layout layout.size)
          (l.resident_object layout) in
      if use_partial_dirtiness_tracking
      then (l.pad_to_align e.0, e.1)
      else (l.resident_object layout, 0)

  unfoldable pub calc_resident_obj_layout_dynamic : TypeLayout → Bool → TypeLayout × ℕ
  calc_resident_obj_layout_dynamic data_layout use_partial_dirtiness_tracking =
      let e =
        l.extend (calc_resident_obj_partial_dirtiness_buf_layout data_layout.size)
          (l.extend l.metadata data_layout).0 in
      if use_partial_dirtiness_tracking
      then (l.pad_to_align e.0, e.1)
      else (repr_c_layout (record { size = 0; align = 1 }) (l.metadata ∷ data_layout ∷ []), 0)

-- A call gives its result and the state after it.
abbrev pub Call : Type 0 → Type 0 → Type 0 → Type 0
Call S H A = Outcome A × Resident S H

abbrev pub object_in_use : ResidentObject → Bool
object_in_use o = get_flag in_use o.status

abbrev pub object_mutable_ref_active : ResidentObject → Bool
object_mutable_ref_active o = get_flag mutable_ref_active o.status

-- `self.remaining_dirty_size += n`
abbrev pub give_back : {S H : Type 0} → ℕ → Resident S H → Resident S H
give_back n r = record r { remaining_dirty_size = add_usize r.remaining_dirty_size n }

module _ {S H : Type 0} (d : PersistentStorageModule S) (a : AllocatorModule H) (l : Layouts) where
  -- The state with an object and a storage as a sync leaves them.
  abbrev pub with_object : ℕ → ResidentObject × S → Resident S H → Resident S H
  with_object p e r = record r { storage = e.1; objects = put r.objects p e.0 }

  -- Takes an item out of the list and frees its memory.
  unfoldable pub remove_item : ℕ → TypeLayout × ℕ → Resident S H → Resident S H
  remove_item p layout r = record r {
    resident_list = erase p r.resident_list;
    heap = a.deallocate (sub_usize p layout.1) layout.0 r.heap;
  }

  -- What follows the sync of an object that is unloaded.
  unfoldable pub unload_end : ℕ → ℕ → TypeLayout × ℕ → Outcome ℕ → Resident S H → Call S H Unit
  unload_end p prev layout (ok n) r = (ok tt, give_back prev (remove_item p layout r))
  unload_end p prev layout err r = (err, r)
  unload_end p prev layout panic r = (panic, r)
  unload_end p prev layout out_of_fuel r = (out_of_fuel, r)

  unfoldable pub unload_resident_object_dynamic : ℕ → Resident S H → Call S H Unit
  unload_resident_object_dynamic p r =
      let o = r.objects p in
      let w = persist_user_data_dynamic d o r.storage in
      unload_end p (dirty_size o) (calc_resident_obj_layout_dynamic l o.layout (is_tracked o)) w.0
        (with_object p w.1 r)

  -- `unload_resident_object` of resident_object.rs for a type with this layout.
  unfoldable pub unload_resident_object :
      ℕ → TypeLayout → Bool → Bool → Resident S H → Call S H Unit
  unload_resident_object p layout unsafe_no_sync use_partial_dirtiness_tracking r =
      let o = r.objects p in
      let w = persist_user_data d o r.storage in
      let total = calc_resident_obj_layout_static l layout use_partial_dirtiness_tracking in
      if unsafe_no_sync
      then unload_end p (dirty_size o) total (ok 0) r
      else unload_end p (dirty_size o) total w.0 (with_object p w.1 r)

  -- What follows the sync of an object that stays.
  unfoldable pub sync_end : Outcome ℕ → Resident S H → Call S H ℕ
  sync_end (ok n) r = (ok n, give_back n r)
  sync_end err r = (err, r)
  sync_end panic r = (panic, r)
  sync_end out_of_fuel r = (out_of_fuel, r)

  -- `ObjectManagementIterItem::sync_user_data`
  unfoldable pub sync_user_data : ℕ → Resident S H → Call S H ℕ
  sync_user_data p r =
      let o = r.objects p in
      let w = persist_user_data_dynamic d o r.storage in
      if is_data_dirty o && object_in_use o then (err, r) else sync_end w.0 (with_object p w.1 r)

  -- `unload` of the item: how many bytes its unloading gives back.
  abbrev pub freed_since : ℕ → Call S H Unit → Call S H ℕ
  freed_since prev (ok u, r) = (ok (sub_usize r.remaining_dirty_size prev), r)
  freed_since prev (err, r) = (err, r)
  freed_since prev (panic, r) = (panic, r)
  freed_since prev (out_of_fuel, r) = (out_of_fuel, r)

  unfoldable pub unload : ℕ → Resident S H → Call S H ℕ
  unload p r =
      if object_in_use (r.objects p)
      then (err, r)
      else freed_since r.remaining_dirty_size (unload_resident_object_dynamic p r)

  -- Does an allocation of the layout succeed? If so it is given back.
  unfoldable pub check_for_space : TypeLayout → Resident S H → Bool × Resident S H
  check_for_space layout r =
      let m = a.allocate layout r.heap in
      elim m.0 [
        | none ↦ (false, record r { heap = m.1 })
        | some p ↦ (true, record r { heap = a.deallocate p layout m.1 })
      ]

  abbrev pub space_after : TypeLayout → Call S H Unit → Call S H Bool
  space_after layout (ok u, r) = let c = check_for_space layout r in (ok c.0, c.1)
  space_after layout (err, r) = (err, r)
  space_after layout (panic, r) = (panic, r)
  space_after layout (out_of_fuel, r) = (out_of_fuel, r)

  unfoldable pub unload_and_check_for_space : ℕ → TypeLayout → Resident S H → Call S H Bool
  unload_and_check_for_space p layout r =
      if object_in_use (r.objects p)
      then (err, r)
      else space_after layout (unload_resident_object_dynamic p r)
