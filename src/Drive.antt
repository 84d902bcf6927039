-- ===== src/Drive.antt =====
-- src/apps/drive: calls of the Drive service, and the numbers of objects in folder names.
pub mod Backoff
pub mod RateLimiter
pub mod Rate
pub mod Retries
pub mod ObjectNumbers
pub mod NumberText
pub mod Naming
pub mod NameLength
pub mod Collisions
pub mod FolderNumbers
mod Tests
mod NamingTests
