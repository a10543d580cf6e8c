-- ===== src/Resident/Clock.antt =====
-- modules/object_management/clock.rs: `ClockObjectManagementModule`, which gives every object a second
-- chance before it is synced or unloaded. A null pointer is the address 0.
use vnv_heap.Base.{ℕ, Bool, true, false, not, ◌&&◌, none, some, if◌then◌else◌, ◌==◌, ltb}
use vnv_heap.Base.Outcome.{Outcome, ok, err, panic, out_of_fuel}
use vnv_heap.Status.{get_flag, clock_accessed, clock_modified}
use vnv_heap.Storage.Device.{PersistentStorageModule}
use vnv_heap.Resident.Object.{TypeLayout, ResidentObject, is_data_dirty}
use vnv_heap.Resident.Persist.{with_flag}
use vnv_heap.Resident.State.{
  AllocatorModule, Layouts, Resident, put, object_in_use, object_mutable_ref_active, sync_user_data,
  unload, unload_and_check_for_space,
}
use vnv_heap.Resident.Management.{
  ObjectManagementModule, Round, and_then, for_each, account, until_space,
}
use vnv_heap.Resident.Default.{finish}

-- The `curr_ptr` of the two clocks.
pub record ClockObjectManagementModule : Type 0 where
  pub modified_ptr : ℕ
  pub resident_ptr : ℕ

pub record GenericClock : Type 0 where
  pub get_curr_ptr : ClockObjectManagementModule → ℕ
  pub set_curr_ptr : ℕ → ClockObjectManagementModule → ClockObjectManagementModule
  pub get_clock_bit : ResidentObject → Bool
  pub set_clock_bit : Bool → ResidentObject → ResidentObject
  pub iter_item_valid : ResidentObject → Bool

abbrev pub modified_clock : GenericClock
modified_clock = record {
  get_curr_ptr = λ m. m.modified_ptr;
  set_curr_ptr = λ p m. record m { modified_ptr = p };
  get_clock_bit = λ x. get_flag clock_modified x.status;
  set_clock_bit = with_flag clock_modified;
  iter_item_valid = λ x. if not (is_data_dirty x) then false else not (object_mutable_ref_active x);
}

abbrev pub resident_clock : GenericClock
resident_clock = record {
  get_curr_ptr = λ m. m.resident_ptr;
  set_curr_ptr = λ p m. record m { resident_ptr = p };
  get_clock_bit = λ x. get_flag clock_accessed x.status;
  set_clock_bit = with_flag clock_accessed;
  iter_item_valid = λ x. not (object_in_use x);
}

-- `GenericClockSubIter::handle`: is the object chosen? One whose bit is set loses it instead.
unfoldable pub handle : GenericClock → ResidentObject → Bool × ResidentObject
handle clock x =
    if clock.iter_item_valid x
    then if not (clock.get_clock_bit x) then (true, x) else (false, clock.set_clock_bit false x)
    else (false, x)

-- The clocks and the resident objects.
abbrev pub Clocked : Type 0 → Type 0 → Type 0
Clocked S H = ClockObjectManagementModule × Resident S H

module _ {C S H : Type 0} (clock : GenericClock)
    (body : ℕ → C → Clocked S H → Round C (Clocked S H)) where
  -- A round of `next` of the sub-iterator, with the body of the loop for a chosen object. The first
  -- iteration passes over the objects in front of the start pointer.
  unfoldable pub visit : Bool → ℕ → ℕ → C → Clocked S H → Round C (Clocked S H)
  visit first start_ptr p c (m, r) =
      let e = handle clock (r.objects p) in
      let r' = record r { objects = put r.objects p e.1 } in
      let chosen = body p c (clock.set_curr_ptr p m, r') in
      if first && ltb p start_ptr
      then (ok (some c), (m, r))
      else if e.0
      then chosen
      else (ok (some c), (m, r'))

  -- The end of the list: the pointer is reset.
  abbrev pub reset_ptr : Round C (Clocked S H) → Round C (Clocked S H)
  reset_ptr (ok none, x) = (ok none, x)
  reset_ptr (ok (some c), x) = (ok (some c), (clock.set_curr_ptr 0 x.0, x.1))
  reset_ptr (err, x) = (err, x)
  reset_ptr (panic, x) = (panic, x)
  reset_ptr (out_of_fuel, x) = (out_of_fuel, x)

  unfoldable pub sub_iter : Bool → ℕ → C → Clocked S H → Round C (Clocked S H)
  unfolding visit
  sub_iter first start_ptr c x = reset_ptr (for_each (visit first start_ptr) x.1.resident_list c x)

  -- `GenericClockIter::next`: the iterations 1, 2 and 3, of which the first is left out where the
  -- start pointer is null.
  unfoldable pub iter : C → Clocked S H → Round C (Clocked S H)
  unfolding sub_iter
  iter c x =
      let start_ptr = clock.get_curr_ptr x.0 in
      let first = if start_ptr == 0 then (ok (some c), x) else sub_iter true start_ptr c x in
      and_then (and_then first (sub_iter false start_ptr)) (sub_iter false start_ptr)

module _ {S H : Type 0} (d : PersistentStorageModule S) (a : AllocatorModule H) (l : Layouts) where
  unfoldable pub sync_chosen : ℕ → ℕ → ℕ → Clocked S H → Round ℕ (Clocked S H)
  sync_chosen required_bytes p curr (m, r) =
      let e = sync_user_data d a l p r in account required_bytes curr e.0 (m, e.1)

  unfoldable pub unload_chosen : ℕ → ℕ → ℕ → Clocked S H → Round ℕ (Clocked S H)
  unload_chosen required_bytes p curr (m, r) =
      let e = unload d a l p r in account required_bytes curr e.0 (m, e.1)

  unfoldable pub sync_dirty_data :
      ℕ → ClockObjectManagementModule → Resident S H → Outcome (Unit {0}) × Clocked S H
  unfolding sync_chosen unload_chosen iter
  sync_dirty_data required_bytes m r = finish (
      and_then (iter modified_clock (sync_chosen required_bytes) 0 (m, r))
        (iter resident_clock (unload_chosen required_bytes)))

  unfoldable pub space_chosen :
      TypeLayout → ℕ → Unit {0} → Clocked S H → Round (Unit {0}) (Clocked S H)
  space_chosen layout p c (m, r) =
      let e = unload_and_check_for_space d a l p layout r in until_space e.0 (m, e.1)

  unfoldable pub unload_objects :
      TypeLayout → ClockObjectManagementModule → Resident S H → Outcome (Unit {0}) × Clocked S H
  unfolding space_chosen iter
  unload_objects layout m r = finish (iter resident_clock (space_chosen layout) tt (m, r))

  abbrev pub clock_module : ObjectManagementModule ClockObjectManagementModule S H
  clock_module = record {
    new = record { modified_ptr = 0; resident_ptr = 0 };
    sync_dirty_data = sync_dirty_data;
    unload_objects = unload_objects;
    access_object = λ m x. (m, with_flag clock_accessed true x);
    modify_object = λ m x. (m, with_flag clock_modified true x);
  }
