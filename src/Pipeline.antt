-- ===== src/Pipeline.antt =====
-- src/apps/pipeline: the queue of processing jobs, and the runs that start them.
pub mod Job
pub mod Run
pub mod World
pub mod Queue
pub mod Pickup
pub mod Ending
pub mod Sweep
pub mod Induction
pub mod Slots
pub mod Validity
pub mod Attempts
pub mod Reservation
pub mod Lifecycle
pub mod Sweeping
pub mod Reach
pub mod Closing
pub mod Rows
pub mod Cleared
pub mod Overtaken
pub mod Resumption
mod Tests
pub mod Runs
pub mod Feeding
pub mod Finish
pub mod Worker
