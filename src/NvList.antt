-- ===== src/NvList.antt =====
-- modules/nonresident_allocator/linked_list.rs: linked lists whose items lie in the storage.
pub mod State
pub mod Stored
pub mod Push
pub mod Walk
pub mod Relink
pub mod Remove
pub mod Simple
pub mod Atomic
mod Tests
