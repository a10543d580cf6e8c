-- ===== src/Heap.antt =====
-- vnv_heap.rs: the heap, which puts the resident objects and the allocator of the storage together.
pub mod Inner
pub mod Allocated
mod Tests
