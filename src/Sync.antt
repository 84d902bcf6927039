-- ===== src/Sync.antt =====
-- src/apps/sync: the durable operation list of the synchronisation.
pub mod Operation
pub mod Queue
pub mod Backoff
pub mod Manual
pub mod Validity
pub mod Steps
pub mod Reservation
pub mod Dispatch
pub mod Attempts
pub mod Control
pub mod Retries
mod Tests
pub mod Idempotence
pub mod Worker
pub mod Decide
pub mod Clarity
mod AssignmentTests
