-- ===== src/Resident/Object.antt =====
-- resident_object_metadata.rs: a resident object with its metadata, its dirty size, and the write of
-- its data to the storage.
use vnv_heap.Base.{
  ℕ, zero, suc, ◌+◌, ◌-◌, ◌*◌, Bool, true, false, not, ◌||◌, List, Option, none, some,
  if◌then◌else◌, ltb, length, take, drop,
}
use vnv_heap.Base.Outcome.{Outcome, ok, err, panic, out_of_fuel}
use vnv_heap.Base.Words.{usize_size, add_usize}
use vnv_heap.Status.{
  ResidentObjectStatus, new_metadata_dirty, get_flag, set_flag, partial_dirtiness_tracking,
  data_dirty,
}
use vnv_heap.Storage.Device.{PersistentStorageModule}
use vnv_heap.Dirtiness.Info
use vnv_heap.Dirtiness.Info.{PartialDirtinessTrackingInfo, calc_bit_and_byte_count}
use vnv_heap.Dirtiness.Wrapper.{Wrapper, get_dirty_size, set_all_blocks_synced}
use vnv_heap.Dirtiness.SyncIter.{SyncDirtyIter, dirty_iter}
use vnv_heap.Dirtiness.SyncNext

-- `core::alloc::Layout`
pub record TypeLayout : Type 0 where
  pub size : ℕ
  pub align : ℕ

-- A `ResidentObject` with the bit list in front of it: `tracking` is what `get_wrapper` of its
-- `partial_dirtiness_tracking_info` gives, `bytes` is `dynamic_metadata_to_data_range`. The pointer to the
-- next object is part of the resident list.
pub record ResidentObject : Type 0 where
  pub status : ResidentObjectStatus
  pub tracking : Wrapper
  pub offset : ℕ
  pub layout : TypeLayout
  pub bytes : List ℕ

-- `TOTAL_METADATA_BACKUP_SIZE`: the packed record of the status byte, two addresses and a layout,
-- which is a size and an alignment.
abbrev pub total_metadata_backup_size : ℕ
total_metadata_backup_size = 1 + usize_size + usize_size + 2 * usize_size

abbrev pub calc_backup_obj_user_data_offset : ℕ
calc_backup_obj_user_data_offset = 0

unfoldable pub calc_dirty_metadata_dirty_byte_cnt : Bool → ℕ → ℕ
calc_dirty_metadata_dirty_byte_cnt enabled_partial_dirtiness_tracking data_size =
    if not enabled_partial_dirtiness_tracking
    then total_metadata_backup_size
    else add_usize total_metadata_backup_size (calc_bit_and_byte_count data_size).1

-- `fresh_object_dirty_size` of a type of this size.
abbrev pub fresh_object_dirty_size : Bool → ℕ → ℕ
fresh_object_dirty_size = calc_dirty_metadata_dirty_byte_cnt

abbrev pub is_tracked : ResidentObject → Bool
is_tracked o = get_flag partial_dirtiness_tracking o.status

abbrev pub is_data_dirty : ResidentObject → Bool
is_data_dirty o = get_flag data_dirty o.status

unfoldable pub dirty_size : ResidentObject → ℕ
dirty_size o =
    let whole = if not (is_tracked o) then o.layout.size else get_dirty_size o.tracking in
    let cnt = if is_data_dirty o then whole else 0 in
    add_usize cnt (calc_dirty_metadata_dirty_byte_cnt (is_tracked o) o.layout.size)

-- `ResidentObjectMetadata::new` of a type with this layout; the bit list and the data are what the
-- memory holds.
unfoldable pub new_object : TypeLayout → ℕ → Bool → List ℕ → List ℕ → ResidentObject
new_object layout offset tracked bit_list bytes =
    let info = if tracked then Info.new_used_dynamic layout.size else Info.new_unused in
    record {
      status = new_metadata_dirty tracked;
      tracking = record { data_range = bit_list; size_info_cache = info.size_info_cache };
      offset = offset;
      layout = layout;
      bytes = bytes;
    }

-- `data_range[range]`, which panics for a range that is out of order or out of bounds.
unfoldable pub sub_slice : ℕ → ℕ → List ℕ → Option (List ℕ)
sub_slice start end bytes =
    if ltb end start || ltb (length bytes) end
    then none
    else some (take (end - start) (drop start bytes))

-- The object without dirty data.
unfoldable pub synced : ResidentObject → ResidentObject
synced o = record o {
  status = set_flag data_dirty false o.status;
  tracking = set_all_blocks_synced o.tracking;
}

module _ {S : Type 0} (d : PersistentStorageModule S) where
  -- The write of one dirty range, with the rest of the loop.
  abbrev pub write_range : ℕ → Option (List ℕ) → (ℕ → S → Outcome ℕ × S) → ℕ → S → Outcome ℕ × S
  write_range at none again count s = (panic, s)
  write_range at (some slice) again count s =
      let w = d.write at slice s in
      if w.0 then again (add_usize count (length slice)) w.1 else (err, w.1)

  -- `while let Some(range) = iter.next()`: a round is one dirty range.
  unfoldable pub write_ranges : ℕ → ResidentObject → SyncDirtyIter → ℕ → S → Outcome ℕ × S
  write_ranges zero o i count s = (out_of_fuel, s)
  write_ranges (suc fuel) o i count s = elim (SyncNext.next (8 * 255 + 1) i) [
    | ok found ↦ elim found.0 [
      | none ↦ (ok count, s)
      | some range ↦
          write_range (add_usize (add_usize o.offset calc_backup_obj_user_data_offset) range.0)
            (sub_slice range.0 range.1 o.bytes) (write_ranges fuel o found.1) count s
    ]
    | err ↦ (err, s)
    | panic ↦ (panic, s)
    | out_of_fuel ↦ (out_of_fuel, s)
  ]

  unfoldable pub write_user_data_dynamic : ResidentObject → S → Outcome ℕ × S
  write_user_data_dynamic o s =
      let w = d.write (add_usize o.offset calc_backup_obj_user_data_offset) o.bytes s in
      let partially : Outcome ℕ × S = elim (dirty_iter o.tracking) [
        | none ↦ (panic, s)
        | some i ↦ write_ranges (8 * 255 + 1) o i 0 s
      ] in
      if not (is_tracked o)
      then (if w.0 then (ok (length o.bytes), w.1) else (err, w.1))
      else partially

  -- The result of the write, with the object after it and the storage.
  abbrev pub persist_end : ResidentObject → Outcome ℕ × S → Outcome ℕ × (ResidentObject × S)
  persist_end o (ok n, s) = (ok n, (synced o, s))
  persist_end o (err, s) = (err, (o, s))
  persist_end o (panic, s) = (panic, (o, s))
  persist_end o (out_of_fuel, s) = (out_of_fuel, (o, s))

  unfoldable pub persist_user_data_dynamic : ResidentObject → S → Outcome ℕ × (ResidentObject × S)
  persist_user_data_dynamic o s =
      if not (is_data_dirty o) then (ok 0, (o, s)) else persist_end o (write_user_data_dynamic o s)

  -- `persist_user_data` of resident_object.rs, where the type of the object is known.
  unfoldable pub persist_user_data : ResidentObject → S → Outcome ℕ × (ResidentObject × S)
  persist_user_data o s =
      if not (is_data_dirty o) then (ok 0, (o, s)) else persist_user_data_dynamic o s

  unfoldable pub load_user_data : ResidentObject → S → Bool × (ResidentObject × S)
  load_user_data o s =
      let r = d.read (add_usize o.offset calc_backup_obj_user_data_offset) o.layout.size s in
      elim r.0 [ none ↦ (false, (o, r.1)) | some bytes ↦ (true, (record o { bytes = bytes }, r.1)) ]
