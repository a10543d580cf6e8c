-- ===== src/Buddy.antt =====
-- modules/allocator/buddy: the buddy allocator in RAM.
pub mod LinkedList
pub mod Chain
pub mod Push
pub mod Remove
pub mod Heap
pub mod Merge
pub mod Free
mod Tests
