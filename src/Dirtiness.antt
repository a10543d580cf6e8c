-- ===== src/Dirtiness.antt =====
-- resident_object_manager/partial_dirtiness_tracking.rs: which blocks of an object are dirty.
pub mod SizeInfo
pub mod Info
pub mod Wrapper
pub mod Blocks
pub mod Size
pub mod Reset
pub mod Range
pub mod Accounting
pub mod SyncIter
pub mod SyncNext
mod Tests
