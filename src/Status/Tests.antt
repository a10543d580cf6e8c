-- ===== src/Status/Tests.antt =====
-- The theorems on `resident_object_status.rs` at a status with two flags.
use vnv_heap.Base.{◌≡◌, true, arith, if◌then◌else◌, ◌==◌}
use vnv_heap.Status.{ResidentObjectStatus, data_dirty, clock_accessed, get_flag, set_flag}
use vnv_heap.Status.Flags.{IsStatus, get_flag-set_flag}

abbrev in_use_accessed : ResidentObjectStatus
in_use_accessed = record { bit_list = 17 }

get_flag-set_flag_example :
    IsStatus (set_flag data_dirty true in_use_accessed)
    × (get_flag clock_accessed (set_flag data_dirty true in_use_accessed)
        ≡ (if 3 == 4 then true else get_flag clock_accessed in_use_accessed))
get_flag-set_flag_example =
    get_flag-set_flag data_dirty clock_accessed true in_use_accessed (omega arith)
