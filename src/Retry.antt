-- ===== src/Retry.antt =====
-- The retry component (app/retry): classification, backoff and the scheduler.
pub mod Catalog
pub mod Classifier
pub mod Backoff
pub mod Scheduler
pub mod Manual
mod Tests
