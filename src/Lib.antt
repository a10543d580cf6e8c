-- ===== src/Lib.antt =====
-- The vNV-Heap (vnv_heap/): a heap for intermittently powered devices. Objects live in a
-- non-volatile storage and are loaded into a small RAM buffer while they are used; a bound on the
-- dirty bytes in RAM bounds the work of a power failure. The parts modelled here:
--
--   * Dirtiness: resident_object_manager/partial_dirtiness_tracking.rs. A resident object has a bit
--     list in front of its metadata, one bit for each block of 64 bytes. Dirtiness/SizeInfo is
--     `SizeInfoCache`, Dirtiness/Info is `PartialDirtinessTrackingInfo`, Dirtiness/Wrapper is
--     `PartialDirtinessTrackingWrapper`; Blocks reads the list as a set of dirty blocks, Size, Reset,
--     Range and Accounting hold the theorems on measuring, resetting and updating it; SyncIter and
--     SyncNext are the iterator over the dirty ranges. The resident object manager subtracts what
--     these functions measure from its remaining dirty size.
--   * Block: modules/nonresident_allocator/block.rs. `NonResidentBlockAllocator` hands out runs of
--     blocks of the storage by a bit list in RAM. Block/Allocator has its state and operations (the
--     loops of `allocate` are `scan_items`, `scan_bits`, `mark_items`, `mark_bits`, those of
--     `deallocate` are `clear_items`, `clear_bits`); Used reads the list as a set of used blocks,
--     Scan, Rounds, Mark and Clear treat one loop each, Correct, Freed, Contract and Init the calls.
--   * Buddy: modules/allocator/buddy. The allocator of the RAM buffer. Buddy/LinkedList is
--     linked_list.rs over a memory of words, a `*mut *mut usize` is a `Slot`; Buddy/Heap is
--     internal.rs; Chain, Push and Remove relate a list to the addresses in it, Merge and Free relate
--     the heap to the lists of its classes.
--   * Status: resident_object_manager/resident_object_status.rs, the flags of a resident object.
--   * Storage: modules/persistent_storage. Storage/Device has the trait of mod.rs as a record of
--     operations with its documented behaviour as laws, Bytes the contents of a storage, Encoding
--     the bytes of a value, Sliced the modules of truncated.rs and sliced.rs; SlicedRead, SlicedWrite
--     and Wrapped show that these keep the laws.
--   * NvList: modules/nonresident_allocator/linked_list.rs, lists whose items lie in the storage.
--     NvList/State has `NonResidentLinkedList` and its iterator over any storage module and any
--     layout of the data (with `remove_where` as `remove_loop`, `remove_round` and `unlink`); Stored
--     says which entries a list stands for, Push, Walk and Remove hold the theorems over a storage
--     that does not fail, Relink the rewriting of a next pointer. Simple is the list without data,
--     Atomic the push-only list, whose `push` is the run of two `push_step`s, between which a
--     reader may come.
--   * Resident: resident_object_manager/ and modules/object_management, the objects that are resident
--     in RAM and the books on the bytes that may still be made dirty.
--     Object has a `ResidentObject` with its metadata, its dirty size and the write and the read of
--     its data (resident_object_metadata.rs), State the state that the manager shares with its object
--     management module, the layouts and the unloading of one object (resident_object.rs), and the
--     items of the walk through the list (object_management/mod.rs). Management has the trait
--     `ObjectManagementModule` as a record of operations, with what the manager relies on as
--     `IsManagement`, and the walk as `for_each`; Default is default.rs, Clock is
--     clock.rs (an iteration of its iterator is `sub_iter`, a round of one `visit`). Require has
--     `require_resident` and `sync_dirty_data` of mod.rs, References the references that are lent and
--     given back (`get_mut`, `get_partial_mut`, `get_ref`, `partial_mut_make_range_dirty`,
--     `release_*`), Constructed `new`, Lifecycle `try_to_allocate`, `flush_object`, `unload_object` and
--     `drop`.
--     Allocation says what the manager relies on of an `AllocatorModule`: the blocks that are handed
--     out are apart. Books is the invariant of the manager: the dirty sizes of the objects in the list
--     and `remaining_dirty_size` add up to the limit, the objects have their data and their blocks.
--     Persist, Total, Items, Rounds, Insert, Lent are the lemmas on one object, on sums over the
--     list, on one item, one round, an insertion and a loan; DefaultKept, Exhausted, ClockRounds,
--     ClockKept, Required, Loaded, Residence, Granted, Freed, Created and Unloaded hold the
--     theorems on the calls.
--   * Heap: vnv_heap.rs. Heap/Inner has `VNVHeapInner` with `allocate` and `deallocate` (as
--     `inner_allocate` and `inner_deallocate`), which compose the allocator of the storage and the
--     manager; Allocated holds the theorem on `allocate`.
--   * Util: util.rs. Base has the shared notation and the lemmas on bits, digits, sums and lists.
--
-- The paths are below vnv_heap/src. The model is of the release profile on a 64-bit target:
-- `debug_assert!` is compiled out and its conditions stand as hypotheses where a theorem needs them,
-- `usize` arithmetic wraps (Base/Words), and an index out of bounds, a failed `assert!` or `expect`
-- is a panic (`none`, or `panic` of Base/Outcome, where `err` is `Err(())`).
--
-- Loops. A `for` loop over a range is a recursion on the rounds that are left, so it needs no fuel.
-- `clear_items` is the unbounded loop of `deallocate`, which leaves by its break or by an index out
-- of bounds: the length of the bit list and one round more reach either. The walks through a free
-- list of the buddy allocator have fuel; one round more than the list has blocks is enough, which
-- the theorems on them state by giving the result of the call.
--
-- The loops over a list in the storage have fuel in the same way. The loops of the sliced module
-- have one round more than there are bytes, enough for any slice size above 0. How a value lies
-- in memory is a parameter (`Layout` of Storage/Encoding), of which the program relies on the round
-- trip through bytes. A value that the source gets by `MaybeUninit` and a cast is what `decode` gives.
--
-- Resident objects. An object is known by the address of its metadata, and the list is the list of
-- these addresses: `next_resident_object` is not a pointer of its own, and a walk that takes out
-- its own item only meets the objects that the list had at its start. A type is its layout, a value
-- its bytes. The layouts of the compiler and `Layout::extend` are the parameter `Layouts`, of which
-- `IsCompiled` asks that the layout of a `repr(C)` object is that of its fields. The RAM allocator,
-- the storage and the object management module are parameters, the last with the laws that Default
-- and Clock are shown to keep. The lock of the heap is free whenever it is taken, since no other
-- thread runs. The data of a fresh object are zeros until they are read. The loops run over the
-- list that they start with, so they need no fuel; the write of the dirty ranges of an object has
-- 2041 rounds, one more than a bit list of at most 255 bytes has bits. The theorems are on
-- objects without partial dirtiness tracking.
--
-- Not modelled. The persistence of all metadata (persist.rs, resident_object_backup.rs), the
-- persist lock and the handles are not part of the model. The in-place reservation `alloc_at` and
-- the pointer arithmetic that finds the bit list in front of the metadata are left out. The RAM
-- allocator modules/allocator/linked_list is third-party code, a file as storage is input and
-- output, benchmarks/ measures. `SyncDirtyIter::next`, `get_partial_mut`, `get_ref`,
-- `partial_mut_make_range_dirty` and the `release_*` calls, `deallocate` of the heap, of the buddy
-- heap `init`, `alloc` and the whole `dealloc` are defined and have no theorem of their own.
pub mod Base
pub mod Util
pub mod Dirtiness
pub mod Block
pub mod Status
pub mod Buddy
pub mod Storage
pub mod NvList
pub mod Resident
pub mod Heap
