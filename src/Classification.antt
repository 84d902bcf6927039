-- ===== src/Classification.antt =====
-- src/apps/classification: how sure the program is of a document's category.
pub mod Confidence
pub mod Caution
mod Tests
