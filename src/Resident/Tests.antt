-- ===== src/Resident/Tests.antt =====
-- The theorems on the resident objects at a storage of 1000 bytes, an allocator that hands out
-- ascending addresses and takes nothing back, and a list with one object, at the address 1000
-- and the storage offset 64.
use vnv_heap.Base.{
  ℕ, ◌+◌, ◌<◌, ◌≡◌, refl, Bool, true, false, [], ◌∷◌, Option, none, some, arith, if◌then◌else◌,
  ◌==◌, ltb, ap, Bool-cases, inl, inr, length, replicate, ◌^◌, zero, suc,
}
use vnv_heap.Base.Words.{usize_mod}
use vnv_heap.Status.Flags.{IsStatus, new-IsStatus, get_flag-new}
use vnv_heap.Status.{
  ResidentObjectStatus, new_metadata_dirty, in_use, data_dirty, partial_dirtiness_tracking, bit_of,
  get_flag, is_set,
}
use vnv_heap.Storage.Bytes.{Contents, length-slice}
use vnv_heap.Storage.Tests.{ram}
use vnv_heap.Resident.Object.{TypeLayout, ResidentObject, dirty_size, total_metadata_backup_size}
use vnv_heap.Resident.Persist.{IsObject, dirty_size-whole}
use vnv_heap.Resident.Total.{total}
use vnv_heap.Resident.State.{AllocatorModule, Layouts, Resident, repr_c_layout}
use vnv_heap.Resident.Allocation.{AllocatorSpec, IsCompiled, Blocks}
use vnv_heap.Resident.Books.{Books}
use vnv_heap.Resident.Management.{ObjectManagementModule, IsManagement}
use vnv_heap.Resident.Default.{Stateless, default_module}
use vnv_heap.Resident.DefaultKept.{default_module-IsManagement}
use vnv_heap.Resident.Required.{Fills}

-- The heap is the next address.
abbrev pub rising : AllocatorModule ℕ
rising = record {
  init = λ start size h. start;
  allocate = λ layout h.
      if ltb (h + layout.size + 1) usize_mod then (some h, h + layout.size + 1) else (none, h);
  deallocate = λ q layout h. h;
}

abbrev Below : ℕ → Blocks → Type 0
Below h f = (h < usize_mod) × ((q : ℕ) (layout : TypeLayout) → f q ≡ some layout → q < h)

rising_gives :
    (layout : TypeLayout) (h q : ℕ)
    → (rising.allocate layout h).0 ≡ some q
    → (q ≡ h)
      × ((rising.allocate layout h).1 ≡ h + layout.size + 1)
      × (h + layout.size + 1 < usize_mod)
rising_gives layout h q e = elim (Bool-cases (ltb (h + layout.size + 1) usize_mod)) [
  | inl fits ↦ rw fits (ground (arith, fits, e), refl, ground (arith, fits))
  | inr lacks ↦ absurd (ground (arith, lacks, e))
]

rising_refuses :
    (layout : TypeLayout) (h : ℕ)
    → (rising.allocate layout h).0 ≡ none
    → (rising.allocate layout h).1 ≡ h
rising_refuses layout h e = elim (Bool-cases (ltb (h + layout.size + 1) usize_mod)) [
  | inl fits ↦ absurd (ground (arith, fits, e))
  | inr lacks ↦ rw lacks refl
]

none_of_no : (w : Option TypeLayout) → ((x : TypeLayout) → w ≡ some x → ⊥) → w ≡ none
none_of_no none no_value = refl
none_of_no (some x) no_value = absurd (no_value x refl)

pub rising-AllocatorSpec : AllocatorSpec rising
rising-AllocatorSpec = record {
  Live = Below;
  fresh = λ layout h f q live e.
      none_of_no (f q) (λ x g. omega (arith, live.1 q x g, (rising_gives layout h q e).0));
  address = λ layout h f q live e. omega (arith, live.0, live.1 q layout e);
  allocated = λ layout h f q live e.
      let g = rising_gives layout h q e in
      rw g.1 (
        g.2,
        λ x y t. elim (Bool-cases (x == q)) [
          | inl here ↦ let at : x ≡ q = ground arith in omega (arith, at, g.0)
          | inr other ↦ omega (arith, live.1 x y (ground (arith, other, t)))
        ],
      );
  refused = λ layout h f live e. rw (rising_refuses layout h e) live;
  deallocated = λ layout h f q live e. (
    live.0,
    λ x y g. live.1 x y (elim (Bool-cases (x == q)) [
      | inl here ↦ absurd (ground (arith, here, g))
      | inr other ↦ ground (arith, other, g)
    ]),
  );
}

abbrev pub packed : Layouts
packed = record {
  extend = λ x y. (record { size = x.size + y.size; align = 8 }, x.size);
  pad_to_align = λ x. x;
  metadata = record { size = 40; align = 8 };
  resident_object = λ x. record { size = 0 + 40 + x.size; align = 8 };
}

pub packed-IsCompiled : IsCompiled packed
unfolding repr_c_layout
packed-IsCompiled = record { fields = λ layout. refl }

pub ram-Fills : Fills ram
ram-Fills o n s bytes e = ground (arith, e, length-slice s o n)

abbrev status_of : Bool → ResidentObjectStatus
status_of dirty =
    if dirty then record { bit_list = 2 ^ bit_of data_dirty } else new_metadata_dirty false

abbrev pub object : Bool → ℕ → ResidentObject
object dirty size = record {
  status = status_of dirty;
  tracking = record { data_range = []; size_info_cache = record { word = 0 } };
  offset = 64;
  layout = record { size = size; align = 8 };
  bytes = replicate size 0;
}

-- One object of this size, clean or dirty, and this many bytes that may still be made dirty.
abbrev pub state : Bool → ℕ → ℕ → Resident Contents ℕ
state dirty size left = record {
  storage = λ k. 0;
  heap = 2000;
  remaining_dirty_size = left;
  resident_list = 1000 ∷ [];
  objects = λ p. object dirty size;
}

length-replicate : (n : ℕ) → length (replicate {A = ℕ} n 0) ≡ n
length-replicate zero = refl
length-replicate (suc n) = ap suc (length-replicate n)

status_of-IsStatus : (dirty : Bool) → IsStatus (status_of dirty)
status_of-IsStatus true = omega arith
status_of-IsStatus false = new-IsStatus false

pub status_of-data_dirty : (dirty : Bool) → get_flag data_dirty (status_of dirty) ≡ dirty
unfolding is_set
status_of-data_dirty true = refl
status_of-data_dirty false = get_flag-new false data_dirty

pub status_of-in_use : (dirty : Bool) → get_flag in_use (status_of dirty) ≡ false
unfolding is_set
status_of-in_use true = refl
status_of-in_use false = get_flag-new false in_use

status_of-whole : (dirty : Bool) → get_flag partial_dirtiness_tracking (status_of dirty) ≡ false
unfolding is_set
status_of-whole true = refl
status_of-whole false = get_flag-new false partial_dirtiness_tracking

pub object-IsObject :
    (dirty : Bool) (size : ℕ)
    → size + total_metadata_backup_size < usize_mod
    → IsObject (object dirty size)
object-IsObject dirty size small = record {
  status_byte = status_of-IsStatus dirty;
  whole = status_of-whole dirty;
  filled = length-replicate size;
  small = small;
}

-- The limit that leaves 67 bytes free.
abbrev pub limit : Bool → ℕ → ℕ
limit dirty size = 67 + ((if dirty then size else 0) + total_metadata_backup_size)

state-Books :
    (dirty : Bool) (size : ℕ)
    → size + total_metadata_backup_size < usize_mod
    → limit dirty size < usize_mod
    → Books packed rising-AllocatorSpec (limit dirty size) (state dirty size 67)
unfolding rising-AllocatorSpec total
state-Books dirty size small fits = record {
  fits = fits;
  distinct = (refl, tt);
  objects_valid = λ p h. object-IsObject dirty size small;
  blocks = (
    omega arith,
    λ q x e. elim (Bool-cases (q == 1000)) [
      | inl here ↦ let at : q ≡ 1000 = ground arith in omega (arith, at)
      | inr other ↦ absurd (ground (arith, other, e))
    ],
  );
  sum =
      let whole = dirty_size-whole {o = object dirty size} (object-IsObject dirty size small) in
      let cost : dirty_size (object dirty size)
          ≡ (if dirty then size else 0) + total_metadata_backup_size =
        rw (status_of-data_dirty dirty) at whole in
      omega (arith, cost);
}

abbrev pub default_objects : ObjectManagementModule Stateless Contents ℕ
default_objects = default_module ram rising packed

pub managed : IsManagement packed rising-AllocatorSpec default_objects
managed = default_module-IsManagement ram rising packed rising-AllocatorSpec

abbrev pub layout_of : ℕ → TypeLayout
layout_of size = record { size = size; align = 8 }

pub clean-Books :
    (size : ℕ)
    → size + total_metadata_backup_size < usize_mod
    → Books packed rising-AllocatorSpec (limit false size) (state false size 67)
clean-Books size small = state-Books false size small (omega arith)

pub dirty-Books : Books packed rising-AllocatorSpec (limit true 16) (state true 16 67)
dirty-Books = state-Books true 16 (omega arith) (omega arith)

pub rising_start : rising-AllocatorSpec.Live (rising.init 2000 512 0) (λ q. none)
unfolding rising-AllocatorSpec
rising_start = (omega arith, λ q x e. absurd (ground arith))
