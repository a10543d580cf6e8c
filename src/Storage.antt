-- ===== src/Storage.antt =====
-- modules/persistent_storage: the storage module trait with its documented behaviour, two modules
-- that wrap another one, and values of a type stored as bytes.
pub mod Device
pub mod Bytes
pub mod Encoding
pub mod Sliced
pub mod SlicedRead
pub mod SlicedWrite
pub mod Wrapped
pub mod Tests
