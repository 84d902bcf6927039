-- ===== src/Parties.antt =====
-- src/apps/parties/services.py: who owned which unit when.
pub mod Period
pub mod Assignment
pub mod PeriodLaws
pub mod NoOverlap
pub mod Overlaps
pub mod OverlapLaws
mod Tests
