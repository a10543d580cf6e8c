-- ===== src/Resident/Require.antt =====
-- resident_object_manager/mod.rs: how an object becomes resident. The lock of the RAM heap is free
-- whenever the manager takes it, since no other thread runs; a type `T` is its layout.
use vnv_heap.Base.{
  ℕ, Bool, true, false, List, [], ◌∷◌, Option, none, some, if◌then◌else◌, ◌==◌, ltb, leb, replicate,
}
use vnv_heap.Base.Outcome.{Outcome, ok, err, panic, out_of_fuel}
use vnv_heap.Base.Words.{add_usize, sub_usize}
use vnv_heap.Storage.Device.{PersistentStorageModule}
use vnv_heap.Dirtiness.Info.{calc_bit_and_byte_count}
use vnv_heap.Dirtiness.Wrapper.{reset}
use vnv_heap.Buddy.Push.{insert}
use vnv_heap.Buddy.Remove.{erase}
use vnv_heap.Resident.Object.{
  TypeLayout, ResidentObject, fresh_object_dirty_size, new_object, load_user_data,
}
use vnv_heap.Resident.State.{
  AllocatorModule, Layouts, Resident, put, give_back, calc_resident_obj_layout_static,
}
use vnv_heap.Resident.Management.{ObjectManagementModule}

-- A call of the manager changes the object management module and the resident objects.
abbrev pub Manager : Type 0 → Type 0 → Type 0 → Type 0
Manager M S H = M × Resident S H

infixl 5 ◌then_call◌
abbrev pub ◌then_call◌ : {X A B : Type 0} → Outcome A × X → (A → X → Outcome B × X) → Outcome B × X
(ok v, x) then_call k = k v x
(err, x) then_call k = (err, x)
(panic, x) then_call k = (panic, x)
(out_of_fuel, x) then_call k = (out_of_fuel, x)

-- `find_element_mut`: the first object in the list with this storage offset.
unfoldable pub find_in : (ℕ → ResidentObject) → ℕ → List ℕ → Option ℕ
find_in objects offset [] = none
find_in objects offset (p ∷ ps) =
    if (objects p).offset == offset then some p else find_in objects offset ps

abbrev pub find_element_mut : {S H : Type 0} → ℕ → Resident S H → Option ℕ
find_element_mut offset r = find_in r.objects offset r.resident_list

-- A fresh object: its bit list is reset and its data are not read yet.
unfoldable pub fresh_object : TypeLayout → ℕ → Bool → ResidentObject
fresh_object layout offset tracked =
    let bit_list : List ℕ =
      if tracked then replicate (calc_bit_and_byte_count layout.size).1 0 else [] in
    let o = new_object layout offset tracked bit_list (replicate layout.size 0) in
    record o { tracking = reset o.tracking }

module _ {M S H : Type 0} (d : PersistentStorageModule S) (a : AllocatorModule H) (l : Layouts)
    (o : ObjectManagementModule M S H) where
  -- `assert!` of `sync_dirty_data`, after a request that has succeeded.
  abbrev pub assert_enough : ℕ → ℕ → Unit {0} → Manager M S H → Outcome (Unit {0}) × Manager M S H
  assert_enough prev_dirty_size required_bytes u (m, r) =
      if leb (add_usize prev_dirty_size required_bytes) r.remaining_dirty_size
      then (ok tt, (m, r))
      else (panic, (m, r))

  unfoldable pub sync_dirty_data : ℕ → Manager M S H → Outcome (Unit {0}) × Manager M S H
  sync_dirty_data required_bytes (m, r) =
      let e = o.sync_dirty_data required_bytes m r in
      if required_bytes == 0
      then (ok tt, (m, r))
      else e then_call assert_enough r.remaining_dirty_size required_bytes

  -- The allocation in RAM, with what it gives bound to the address; `none` is for the caller.
  abbrev pub allocate_block : TypeLayout → Resident S H → Option ℕ × Resident S H
  allocate_block layout r = let e = a.allocate layout r.heap in (e.0, record r { heap = e.1 })

  -- `allocate(..).unwrap()`
  abbrev pub expect_address : Option ℕ × Resident S H → M → Outcome ℕ × Manager M S H
  expect_address (none, r) m = (panic, (m, r))
  expect_address (some q, r) m = (ok q, (m, r))

  -- The first allocation, for which objects are unloaded if there is no space.
  abbrev pub make_space : TypeLayout → Option ℕ × Resident S H → M → Outcome ℕ × Manager M S H
  make_space layout (some q, r) m = (ok q, (m, r))
  make_space layout (none, r) m =
      o.unload_objects layout m r then_call λ u x. expect_address (allocate_block layout x.1) x.0

  -- A fresh object needs bytes for its metadata; where they are missing, the block is given back
  -- while others are synced.
  unfoldable pub make_dirty_space : ℕ → TypeLayout → ℕ → Manager M S H → Outcome ℕ × Manager M S H
  unfolding sync_dirty_data
  make_dirty_space dirty_size layout q (m, r) =
      let without = record r { heap = a.deallocate q layout r.heap } in
      if ltb r.remaining_dirty_size dirty_size
      then (sync_dirty_data (sub_usize dirty_size r.remaining_dirty_size) (m, without)
          then_call λ u x. expect_address (allocate_block layout x.1) x.0)
      else (ok q, (m, r))

  -- The object is put into the list.
  unfoldable pub insert_object : ℕ → ℕ → ResidentObject → Resident S H → Resident S H
  insert_object dirty_size p object r = record r {
    remaining_dirty_size = sub_usize r.remaining_dirty_size dirty_size;
    resident_list = insert p r.resident_list;
    objects = put r.objects p object;
  }

  -- The read of the data; where it fails the object is taken out again.
  abbrev pub loaded :
      ℕ
      → ℕ
      → TypeLayout
      → ℕ
      → M
      → Resident S H
      → Bool × (ResidentObject × S)
      → Outcome ℕ × Manager M S H
  loaded dirty_size p total q m r (true, (object, s)) =
      (ok p, (m, record r { storage = s; objects = put r.objects p object }))
  loaded dirty_size p total q m r (false, (object, s)) = (
    err,
    (
      m,
      give_back dirty_size (record r {
        storage = s;
        resident_list = erase p r.resident_list;
        heap = a.deallocate q total r.heap;
      }),
    ),
  )

  unfoldable pub load_object : TypeLayout → ℕ → Bool → ℕ → Manager M S H → Outcome ℕ × Manager M S H
  unfolding insert_object fresh_object
  load_object layout offset tracked q (m, r) =
      let total = calc_resident_obj_layout_static l layout tracked in
      let dirty_size = fresh_object_dirty_size tracked layout.size in
      let p = add_usize q total.1 in
      let object = fresh_object layout offset tracked in
      let r' = insert_object dirty_size p object r in
      loaded dirty_size p total.0 q m r' (load_user_data d object r'.storage)

  abbrev pub require_absent : TypeLayout → ℕ → Bool → Manager M S H → Outcome ℕ × Manager M S H
  require_absent layout offset tracked (m, r) =
      let total = (calc_resident_obj_layout_static l layout tracked).0 in
      make_space total (allocate_block total r) m
      then_call (λ q x. make_dirty_space (fresh_object_dirty_size tracked layout.size) total q x)
      then_call λ q x. load_object layout offset tracked q x

  -- `require_resident`: the address of the object.
  unfoldable pub require_resident :
      TypeLayout → ℕ → Bool → Manager M S H → Outcome ℕ × Manager M S H
  unfolding make_dirty_space load_object
  require_resident layout offset tracked (m, r) = elim (find_element_mut offset r) [
    | some p ↦ (ok p, (m, r))
    | none ↦ require_absent layout offset tracked (m, r)
  ]
