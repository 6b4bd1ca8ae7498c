-- ===== src/Store.antt =====
-- The durable state (app/db/models.py) and the repositories over it (app/repositories).
pub mod Rows
pub mod Model
pub mod Jobs
pub mod Retry
pub mod Outbox
pub mod Commands
pub mod Attempts
pub mod Folders
pub mod Claims
pub mod Leases
pub mod Core
pub mod Audit
pub mod Stable
pub mod Lives
pub mod Freed
pub mod Told
mod Tests
