-- ===== src/Status.antt =====
-- resident_object_manager/resident_object_status.rs: six flags of a resident object in one byte.
pub mod Flags
mod Tests
use vnv_heap.Base.{
  ℕ, ◌+◌, ◌-◌, ◌^◌, ◌<◌, Bool, true, false, not, bit_and, bit_or, if◌then◌else◌, ◌==◌,
}

pub record ResidentObjectStatus : Type 0 where
  pub bit_list : ℕ

-- The bits of `IS_IN_USE`, `IS_MUTABLE_REF_ACTIVE`, `ENABLE_PARTIAL_DIRTINESS_TRACKING`,
-- `DATA_DIRTY`, `CLOCK_ACCESSED` and `CLOCK_MODIFIED`.
pub data Flag : Type 0 where
  in_use mutable_ref_active partial_dirtiness_tracking data_dirty clock_accessed clock_modified :
      Flag

abbrev pub bit_of : Flag → ℕ
bit_of in_use = 0
bit_of mutable_ref_active = 1
bit_of partial_dirtiness_tracking = 2
bit_of data_dirty = 3
bit_of clock_accessed = 4
bit_of clock_modified = 5

abbrev pub mask_of : Flag → ℕ
mask_of f = 2 ^ bit_of f

unfoldable pub is_set : ℕ → ResidentObjectStatus → Bool
is_set bitmask s = not (bit_and s.bit_list bitmask == 0)

unfoldable pub set : ℕ → Bool → ResidentObjectStatus → ResidentObjectStatus
set bitmask state s = record s {
  bit_list = if state then bit_or s.bit_list bitmask else bit_and s.bit_list (255 - bitmask);
}

unfoldable pub new_metadata_dirty : Bool → ResidentObjectStatus
new_metadata_dirty tracking = record {
  bit_list = if tracking then bit_or 0 (mask_of partial_dirtiness_tracking) else 0;
}

-- `$get_name` and `$set_name` of the macro `generate_functions`, at each flag.
abbrev pub get_flag : Flag → ResidentObjectStatus → Bool
get_flag f = is_set (mask_of f)

abbrev pub set_flag : Flag → Bool → ResidentObjectStatus → ResidentObjectStatus
set_flag f = set (mask_of f)
