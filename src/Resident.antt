-- ===== src/Resident.antt =====
-- resident_object_manager and modules/object_management: the objects that are resident in RAM, the
-- bytes that may still be made dirty, and the modules that choose what is synced and unloaded.
pub mod Object
pub mod Persist
pub mod State
pub mod Allocation
pub mod Books
pub mod Items
pub mod Management
pub mod Rounds
pub mod Default
pub mod DefaultKept
pub mod Exhausted
pub mod Clock
pub mod ClockRounds
pub mod ClockKept
pub mod Require
pub mod Constructed
pub mod Insert
pub mod Required
pub mod Loaded
pub mod Residence
pub mod References
pub mod Lent
pub mod Granted
pub mod Freed
pub mod Lifecycle
pub mod Unloaded
pub mod Created
pub mod Total
pub mod Tests
mod Examples
