-- ===== src/Resident/Lifecycle.antt =====
-- resident_object_manager/mod.rs: objects that are created in RAM, written back, unloaded and dropped.
-- A type `T` is its layout, its value the bytes.
use vnv_heap.Base.{
  ℕ, Bool, true, false, List, [], Option, none, some, if◌then◌else◌, ltb, replicate, is_some,
  length,
}
use vnv_heap.Base.Outcome.{Outcome, ok, err, panic, out_of_fuel}
use vnv_heap.Base.Words.{add_usize}
use vnv_heap.Status.{data_dirty}
use vnv_heap.Storage.Device.{PersistentStorageModule}
use vnv_heap.Dirtiness.Info.{calc_bit_and_byte_count}
use vnv_heap.Dirtiness.Wrapper.{reset_and_set_all_blocks_dirty}
use vnv_heap.Resident.Object.{
  TypeLayout, ResidentObject, fresh_object_dirty_size, new_object, is_data_dirty, persist_user_data,
}
use vnv_heap.Resident.Persist.{with_flag}
use vnv_heap.Resident.State.{
  AllocatorModule, Layouts, Resident, Call, give_back, with_object, object_in_use,
  calc_resident_obj_layout_static, unload_resident_object,
}
use vnv_heap.Resident.Management.{ObjectManagementModule}
use vnv_heap.Resident.Require.{
  Manager, ◌then_call◌, find_element_mut, insert_object, require_resident,
}
use vnv_heap.Resident.References.{access_object, modify_object}

-- The object of a new value: dirty as a whole.
unfoldable pub created_object : TypeLayout → ℕ → Bool → List ℕ → ResidentObject
created_object layout offset tracked bytes =
    let bit_list : List ℕ =
      if tracked then replicate (calc_bit_and_byte_count layout.size).1 0 else [] in
    let o = with_flag data_dirty true (new_object layout offset tracked bit_list bytes) in
    record o { tracking = reset_and_set_all_blocks_dirty o.tracking }

-- `is_resident`
unfoldable pub is_resident : {S H : Type 0} → ℕ → Resident S H → Bool
is_resident offset r = is_some (find_element_mut offset r)

-- `is_data_dirty` of the manager
unfoldable pub is_resident_dirty : {S H : Type 0} → ℕ → Resident S H → Bool
is_resident_dirty offset r = elim (find_element_mut offset r) [
  | none ↦ false
  | some p ↦ is_data_dirty (r.objects p)
]

unfoldable pub count_resident_objects : {S H : Type 0} → Resident S H → ℕ
count_resident_objects r = length r.resident_list

module _ {S H : Type 0} (d : PersistentStorageModule S) (a : AllocatorModule H) (l : Layouts) where
  -- `self.remaining_dirty_size += data.persist_user_data(storage)?`
  abbrev pub flushed : Outcome ℕ → Resident S H → Call S H Unit
  flushed (ok n) r = (ok tt, give_back n r)
  flushed err r = (err, r)
  flushed panic r = (panic, r)
  flushed out_of_fuel r = (out_of_fuel, r)

  unfoldable pub flush_object : ℕ → Resident S H → Call S H Unit
  flush_object offset r = elim (find_element_mut offset r) [
    | none ↦ (ok tt, r)
    | some p ↦
        let w = persist_user_data d (r.objects p) r.storage in
        if is_data_dirty (r.objects p) then flushed w.0 (with_object d a l p w.1 r) else (ok tt, r)
  ]

  -- `.expect("unloading should succeed")`
  abbrev pub expect_unloaded : Call S H Unit → Call S H Unit
  expect_unloaded (ok u, r) = (ok u, r)
  expect_unloaded (err, r) = (panic, r)
  expect_unloaded (panic, r) = (panic, r)
  expect_unloaded (out_of_fuel, r) = (out_of_fuel, r)

  unfoldable pub unload_object : TypeLayout → ℕ → Bool → Resident S H → Call S H Unit
  unload_object layout offset tracked r = elim (find_element_mut offset r) [
    | none ↦ (ok tt, r)
    | some p ↦
        let e = unload_resident_object d a l p layout false tracked r in
        if object_in_use (r.objects p) then (err, r) else expect_unloaded e
  ]

module _ {M S H : Type 0} (d : PersistentStorageModule S) (a : AllocatorModule H) (l : Layouts)
    (o : ObjectManagementModule M S H) where
  -- The block of a new object is there: the object is put into the list.
  abbrev pub create_at :
      ℕ → ℕ → ResidentObject → Option ℕ × H → Manager M S H → Bool × Manager M S H
  create_at cost offset object (none, h) (m, r) = (false, (m, record r { heap = h }))
  create_at cost offset object (some q, h) (m, r) =
      let p = add_usize q offset in
      let r' = insert_object d a l o cost p object (record r { heap = h }) in
      (true, modify_object d a l o p (access_object d a l o p (m, r')))

  -- `try_to_allocate`, which syncs and unloads nothing; `false` gives the value back.
  unfoldable pub try_to_allocate :
      TypeLayout → ℕ → Bool → List ℕ → Manager M S H → Bool × Manager M S H
  unfolding created_object insert_object access_object modify_object
  try_to_allocate layout storage_offset tracked bytes (m, r) =
      let total = calc_resident_obj_layout_static l layout tracked in
      let cost = add_usize layout.size (fresh_object_dirty_size tracked layout.size) in
      let e = a.allocate total.0 r.heap in
      if ltb r.remaining_dirty_size cost
      then (false, (m, r))
      else create_at cost total.1 (created_object layout storage_offset tracked bytes) e (m, r)

  -- An object is dropped without a write; where the type needs its own drop it is made resident
  -- before.
  abbrev pub drop_resident :
      TypeLayout → ℕ → Bool → Bool → Manager M S H → Outcome (Unit {0}) × Manager M S H
  drop_resident layout offset needs_drop tracked (m, r) = elim (find_element_mut offset r) [
    | none ↦ ((if needs_drop then err else ok tt), (m, r))
    | some p ↦ let e = unload_resident_object d a l p layout true tracked r in (e.0, (m, e.1))
  ]

  unfoldable pub drop :
      TypeLayout → ℕ → Bool → Bool → Manager M S H → Outcome (Unit {0}) × Manager M S H
  unfolding require_resident
  drop layout offset needs_drop tracked (m, r) =
      let resident = require_resident d a l o layout offset tracked (m, r) in
      if needs_drop
      then (resident then_call (λ p x. drop_resident layout offset needs_drop tracked x))
      else drop_resident layout offset needs_drop tracked (m, r)
