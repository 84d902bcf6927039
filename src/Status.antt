-- ===== src/Status.antt =====
-- src/apps/status: the alarms by mail.
pub mod Conditions
pub mod Alerts
pub mod Fallback
pub mod Quiet
pub mod Spacing
mod Tests
