-- ===== src/Imports.antt =====
-- src/apps/imports: the owners of an imported list among those that are known.
pub mod Matching
pub mod Certainty
mod Tests
