-- ===== src/Status/Flags.antt =====
-- Each flag is a cell of its own.
use vnv_heap.Base.{◌<◌, ◌≡◌, refl, ◌∙◌, Bool, true, false, arith, if◌then◌else◌, ◌==◌}
use vnv_heap.Base.Bits.{set_bit-lt, clear_bit-lt, bit-set_bit, bit-clear_bit, mask-bit, bit}
use vnv_heap.Status.{
  ResidentObjectStatus, Flag, in_use, mutable_ref_active, partial_dirtiness_tracking, data_dirty,
  clock_accessed, clock_modified, bit_of, is_set, set, get_flag, set_flag, new_metadata_dirty,
}

abbrev pub IsStatus : ResidentObjectStatus → Type 0
IsStatus s = s.bit_list < 256

bit_of-lt : (f : Flag) → bit_of f < 8
bit_of-lt f = ground arith

get_flag-bit :
    (f : Flag) (s : ResidentObjectStatus) → IsStatus s → get_flag f s ≡ bit s.bit_list (bit_of f)
unfolding is_set
get_flag-bit f s v = mask-bit s.bit_list (bit_of f) v (bit_of-lt f)

-- On a status that is a byte, a setter keeps the byte a byte, makes its own flag the given value,
-- and leaves the five others.
pub get_flag-set_flag :
    (f g : Flag) (state : Bool) (s : ResidentObjectStatus)
    → IsStatus s
    → IsStatus (set_flag f state s)
      × (get_flag g (set_flag f state s) ≡ (if bit_of f == bit_of g then state else get_flag g s))
unfolding set
get_flag-set_flag f g true s v =
    let w = set_bit-lt s.bit_list (bit_of f) v (bit_of-lt f) in
    (
      w,
      get_flag-bit g _ w
          ∙ bit-set_bit s.bit_list (bit_of f) (bit_of g) v (bit_of-lt f) (bit_of-lt g)
          ∙ rw (get_flag-bit g s v) refl,
    )
get_flag-set_flag f g false s v =
    let w = clear_bit-lt s.bit_list (bit_of f) v (bit_of-lt f) in
    (
      w,
      get_flag-bit g _ w
          ∙ bit-clear_bit s.bit_list (bit_of f) (bit_of g) v (bit_of-lt f) (bit_of-lt g)
          ∙ rw (get_flag-bit g s v) refl,
    )

-- Two flags with the same bit are one.
pub bit_of-injective : (f g : Flag) → bit_of f ≡ bit_of g → f ≡ g
bit_of-injective f g e = ground arith

-- A fresh status has the tracking flag that it is given, and no other flag.
pub get_flag-new :
    (tracking : Bool) (g : Flag)
    → get_flag g (new_metadata_dirty tracking)
      ≡ (if bit_of g == bit_of partial_dirtiness_tracking then tracking else false)
unfolding new_metadata_dirty is_set
get_flag-new true in_use = refl
get_flag-new true mutable_ref_active = refl
get_flag-new true partial_dirtiness_tracking = refl
get_flag-new true data_dirty = refl
get_flag-new true clock_accessed = refl
get_flag-new true clock_modified = refl
get_flag-new false in_use = refl
get_flag-new false mutable_ref_active = refl
get_flag-new false partial_dirtiness_tracking = refl
get_flag-new false data_dirty = refl
get_flag-new false clock_accessed = refl
get_flag-new false clock_modified = refl

pub new-IsStatus : (tracking : Bool) → IsStatus (new_metadata_dirty tracking)
unfolding new_metadata_dirty
new-IsStatus true = omega arith
new-IsStatus false = omega arith
