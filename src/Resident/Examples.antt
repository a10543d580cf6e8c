-- ===== src/Resident/Examples.antt =====
-- The theorems on the manager and the object management modules at the list of Resident/Tests.
use vnv_heap.Base.{ℕ, ◌≡◌, refl, true, false, [], ◌∷◌, arith}
use vnv_heap.Base.Outcome.{ok}
use vnv_heap.Status.{new_metadata_dirty, in_use, is_set, set_flag, set}
use vnv_heap.Storage.Bytes.{Contents}
use vnv_heap.Storage.Tests.{ram}
use vnv_heap.Resident.Object.{ResidentObject}
use vnv_heap.Resident.Persist.{
  with_flag, with_flag-IsObject, with_flag-SameData, dirty_size-with_flag,
}
use vnv_heap.Resident.State.{Resident, put, object_in_use}
use vnv_heap.Resident.Books.{Books, Kept, Kept-refl, replace-Kept}
use vnv_heap.Resident.Management.{Syncs, for_each}
use vnv_heap.Resident.Default.{Stateless, sync_dirty_data, sync_item, unload_item}
use vnv_heap.Resident.DefaultKept.{sync_dirty_data-Syncs}
use vnv_heap.Resident.Granted.{Gets, get_mut-Gets, Granted, get_mut_at-Granted}
use vnv_heap.Resident.References.{get_mut, get_mut_at}
use vnv_heap.Resident.Freed.{get_mut_at-freed}
use vnv_heap.Resident.Require.{Manager, require_resident}
use vnv_heap.Resident.Loaded.{Required}
use vnv_heap.Resident.Clock
use vnv_heap.Resident.Constructed.{new, new-Books}
use vnv_heap.Resident.Exhausted.{sync_dirty_data-exhausted}
use vnv_heap.Resident.ClockKept.{clock_sync-Syncs}
use vnv_heap.Resident.Residence.{require_resident-Required}
use vnv_heap.Resident.Lifecycle.{try_to_allocate, unload_object, flush_object, drop}
use vnv_heap.Resident.Created.{Creates, try_to_allocate-Creates}
use vnv_heap.Resident.Unloaded.{
  Unloads, unload_object-Unloads, Flushes, flush_object-Flushes, Drops, drop-Drops,
}
use vnv_heap.Resident.Tests.{
  rising, rising-AllocatorSpec, packed, packed-IsCompiled, ram-Fills, object, state,
  status_of-data_dirty, status_of-in_use, object-IsObject, limit, default_objects, managed,
  layout_of, clean-Books, dirty-Books, rising_start,
}

get_mut-Gets_example :
    let e =
      get_mut ram rising packed default_objects (layout_of 16) 64 false (tt, state false 16 67) in
    Gets ram rising packed default_objects rising-AllocatorSpec managed ram-Fills packed-IsCompiled
      (limit false 16)
      (layout_of 16)
      64
      tt
      (state false 16 67)
      e.0
      e.1.1
get_mut-Gets_example =
    get_mut-Gets ram rising packed default_objects rising-AllocatorSpec managed ram-Fills
      packed-IsCompiled (limit false 16) (layout_of 16) 64 tt (omega arith)
      (clean-Books 16 (omega arith)) (λ q e. status_of-in_use false)

get_mut_at-Granted_example :
    let e = get_mut_at ram rising packed default_objects 1000 (tt, state false 16 67) in
    (e.0 ≡ ok 1000)
    × Granted ram rising packed default_objects rising-AllocatorSpec managed
        (limit false 16)
        1000
        (state false 16 67)
        (state false 16 67)
        e.1.1
get_mut_at-Granted_example =
    get_mut_at-Granted ram rising packed default_objects rising-AllocatorSpec managed
      (limit false 16) 1000 tt (clean-Books 16 (omega arith)) refl (status_of-in_use false)
      (ground arith)

get_mut_at-freed_example :
    let e = get_mut_at ram rising packed default_objects 1000 (tt, state false 80 67) in
    (e.0 ≡ ok 1000) × (e.1.1.resident_list ≡ [])
get_mut_at-freed_example =
    get_mut_at-freed ram rising packed rising-AllocatorSpec 1000 (clean-Books 80 (omega arith)) refl
      (status_of-data_dirty false) (status_of-in_use false) refl (omega arith) (omega arith)

require_resident-Required_example :
    let e =
      require_resident ram rising packed default_objects
        (layout_of 16)
        128
        false
        (tt, state false 16 67) in
    Required ram rising packed default_objects rising-AllocatorSpec managed ram-Fills
      packed-IsCompiled
      (limit false 16)
      (layout_of 16)
      128
      (state false 16 67)
      e.1.1
      e.0
require_resident-Required_example =
    require_resident-Required ram rising packed default_objects rising-AllocatorSpec managed
      ram-Fills packed-IsCompiled (layout_of 16) 128 (omega arith) tt (clean-Books 16 (omega arith))

try_to_allocate-Creates_example :
    let e =
      try_to_allocate ram rising packed default_objects
        (layout_of 2)
        128
        false
        (7 ∷ 9 ∷ [])
        (tt, state false 16 67) in
    Creates ram rising packed default_objects rising-AllocatorSpec managed packed-IsCompiled
      (limit false 16)
      (layout_of 2)
      128
      (7 ∷ 9 ∷ [])
      (state false 16 67)
      e.1.1
      e.0
try_to_allocate-Creates_example =
    try_to_allocate-Creates ram rising packed default_objects rising-AllocatorSpec managed
      packed-IsCompiled (limit false 16) (layout_of 2) 128 (7 ∷ 9 ∷ []) tt
      (clean-Books 16 (omega arith)) refl (omega arith)

unload_object-Unloads_example :
    let e = unload_object ram rising packed (layout_of 16) 64 false (state true 16 67) in
    Unloads ram rising packed rising-AllocatorSpec packed-IsCompiled
      (limit true 16)
      64
      (state true 16 67)
      e.1
      e.0
unload_object-Unloads_example =
    unload_object-Unloads ram rising packed rising-AllocatorSpec packed-IsCompiled (limit true 16)
      (layout_of 16) 64 dirty-Books (λ p e. refl)

flush_object-Flushes_example :
    let e = flush_object ram rising packed 64 (state true 16 67) in
    Flushes ram rising packed rising-AllocatorSpec packed-IsCompiled
      (limit true 16)
      64
      (state true 16 67)
      e.1
      e.0
flush_object-Flushes_example =
    flush_object-Flushes ram rising packed rising-AllocatorSpec packed-IsCompiled (limit true 16) 64
      dirty-Books (λ p e. status_of-in_use true)

drop-Drops_example :
    let e =
      drop ram rising packed default_objects (layout_of 16) 64 false false (tt, state true 16 67) in
    Drops ram rising packed rising-AllocatorSpec packed-IsCompiled
      (limit true 16)
      64
      (state true 16 67)
      e.1.1
      e.0
drop-Drops_example =
    drop-Drops ram rising packed rising-AllocatorSpec packed-IsCompiled (limit true 16)
      default_objects tt (layout_of 16) 64 dirty-Books (λ p e. (refl, status_of-in_use true))

sync_dirty_data-Syncs_example :
    let e = sync_dirty_data ram rising packed 20 tt (state true 16 67) in
    Kept packed rising-AllocatorSpec (limit true 16) (state true 16 67) e.1.1
    × Syncs 20 67 e.1.1.remaining_dirty_size e.0
sync_dirty_data-Syncs_example =
    sync_dirty_data-Syncs ram rising packed rising-AllocatorSpec 20 tt dirty-Books

abbrev running_clock : Clock.ClockObjectManagementModule
running_clock = record { modified_ptr = 1000; resident_ptr = 0 }

clock_sync-Syncs_example :
    let e = Clock.sync_dirty_data ram rising packed 20 running_clock (state true 16 67) in
    Kept packed rising-AllocatorSpec (limit true 16) (state true 16 67) e.1.1
    × Syncs 20 67 e.1.1.remaining_dirty_size e.0
clock_sync-Syncs_example =
    clock_sync-Syncs ram rising packed rising-AllocatorSpec 20 running_clock dirty-Books

-- The clean object while it is read.
abbrev read_object : ResidentObject
read_object = with_flag in_use true (object false 16)

abbrev reading : Resident Contents ℕ
reading = record (state false 16 67) { objects = put (λ p. object false 16) 1000 read_object }

reading-Books : Books packed rising-AllocatorSpec (limit false 16) reading
reading-Books =
    let v = object-IsObject false 16 (omega arith) in
    let free = dirty_size-with_flag in_use true refl refl v in
    (replace-Kept packed rising-AllocatorSpec 1000 67 read_object (λ k. 0)
      (Kept-refl packed rising-AllocatorSpec (clean-Books 16 (omega arith))) refl
      (with_flag-IsObject in_use true refl v) (with_flag-SameData in_use true (object false 16))
      (omega (arith, free)) (λ u. absurd (ground (arith, u, status_of-in_use false)))).books

sync_dirty_data-exhausted_example :
    object_in_use ((sync_dirty_data ram rising packed 20 tt reading).1.1.objects 1000) ≡ true
unfolding sync_dirty_data sync_item unload_item for_each with_flag set_flag is_set set
    new_metadata_dirty
sync_dirty_data-exhausted_example =
    sync_dirty_data-exhausted ram rising packed rising-AllocatorSpec 20 tt reading-Books
      (λ q s h. refl) refl 1000 refl

new-Books_example :
    (x : Manager Stateless Contents ℕ) × (new rising packed default_objects 2000 512 99 []
        (λ p. object false 16)
        (λ k. 0)
        0
      ≡ ok x)
    × Books packed rising-AllocatorSpec 99 x.1
new-Books_example =
    new-Books rising packed default_objects rising-AllocatorSpec 2000 512 99 (λ p. object false 16)
      (λ k. 0) 0 (omega arith) (omega arith) rising_start
