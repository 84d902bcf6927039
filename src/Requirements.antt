-- ===== src/Requirements.antt =====
-- src/apps/requirements: the completeness engine and its rules.
pub mod Calendar
pub mod Spec
pub mod Data
pub mod Links
pub mod Weg
pub mod Rental
pub mod Evaluate
pub mod Equality
pub mod Entry
pub mod Upsert
pub mod Refinement
pub mod Uniqueness
pub mod Again
pub mod Findings
pub mod Totals
pub mod Fiscal
pub mod Marks
pub mod Requests
pub mod Approval
pub mod Forgotten
pub mod Example
mod CalendarTests
mod RunTests
mod RequestTests
