-- ===== src/Block.antt =====
-- modules/nonresident_allocator/block.rs: the block allocator, a bit list with one bit a block.
pub mod Allocator
pub mod Used
pub mod Scan
pub mod Rounds
pub mod Mark
pub mod Clear
pub mod Correct
pub mod Freed
pub mod Contract
pub mod Init
mod Tests
