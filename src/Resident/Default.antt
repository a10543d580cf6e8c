-- ===== src/Resident/Default.antt =====
-- modules/object_management/default.rs: `DefaultObjectManagementModule`, which has no state and asks
-- the objects in the order of the list.
use vnv_heap.Base.{ℕ, not, ◌&&◌, none, some, if◌then◌else◌}
use vnv_heap.Base.Outcome.{Outcome, ok, err, panic, out_of_fuel}
use vnv_heap.Storage.Device.{PersistentStorageModule}
use vnv_heap.Resident.Object.{TypeLayout, is_data_dirty}
use vnv_heap.Resident.State.{
  AllocatorModule, Layouts, Resident, object_in_use, object_mutable_ref_active, sync_user_data,
  unload, unload_and_check_for_space,
}
use vnv_heap.Resident.Management.{
  ObjectManagementModule, Round, and_then, for_each, account, until_space,
}

-- The state of the module without fields.
abbrev pub Stateless : Type 0
Stateless = Unit

-- After the last round: `Err(())` where no round has returned.
abbrev pub finish : {C X : Type 0} → Round C X → Outcome (Unit {0}) × X
finish (ok none, x) = (ok tt, x)
finish (ok (some c), x) = (err, x)
finish (err, x) = (err, x)
finish (panic, x) = (panic, x)
finish (out_of_fuel, x) = (out_of_fuel, x)

module _ {S H : Type 0} (d : PersistentStorageModule S) (a : AllocatorModule H) (l : Layouts) where
  -- A round of step 1: sync an object with dirty data.
  unfoldable pub sync_item : ℕ → ℕ → ℕ → Resident S H → Round ℕ (Resident S H)
  sync_item required_bytes p curr r =
      let o = r.objects p in
      let e = sync_user_data d a l p r in
      if object_in_use o && object_mutable_ref_active o
      then (ok (some curr), r)
      else if not (is_data_dirty o)
      then (ok (some curr), r)
      else account required_bytes curr e.0 e.1

  -- A round of step 2: unload an object that is not in use.
  unfoldable pub unload_item : ℕ → ℕ → ℕ → Resident S H → Round ℕ (Resident S H)
  unload_item required_bytes p curr r =
      let o = r.objects p in
      let e = unload d a l p r in
      if object_in_use o && object_mutable_ref_active o
      then (ok (some curr), r)
      else if object_in_use o
      then (ok (some curr), r)
      else account required_bytes curr e.0 e.1

  unfoldable pub sync_dirty_data :
      ℕ → Stateless → Resident S H → Outcome (Unit {0}) × (Stateless × Resident S H)
  unfolding sync_item unload_item
  sync_dirty_data required_bytes m r =
      let e = finish (
        and_then (for_each (sync_item required_bytes) r.resident_list 0 r)
          (λ curr r'. for_each (unload_item required_bytes) r'.resident_list curr r')) in
      (e.0, (m, e.1))

  -- A round of `unload_objects`.
  unfoldable pub unload_for_space :
      TypeLayout → ℕ → Unit {0} → Resident S H → Round (Unit {0}) (Resident S H)
  unload_for_space layout p c r =
      let e = unload_and_check_for_space d a l p layout r in
      if object_in_use (r.objects p) then (ok (some c), r) else until_space e.0 e.1

  unfoldable pub unload_objects :
      TypeLayout → Stateless → Resident S H → Outcome (Unit {0}) × (Stateless × Resident S H)
  unfolding unload_for_space
  unload_objects layout m r =
      let e = finish (for_each (unload_for_space layout) r.resident_list tt r) in (e.0, (m, e.1))

  abbrev pub default_module : ObjectManagementModule Stateless S H
  default_module = record {
    new = tt;
    sync_dirty_data = sync_dirty_data;
    unload_objects = unload_objects;
    access_object = λ m o. (m, o);
    modify_object = λ m o. (m, o);
  }
