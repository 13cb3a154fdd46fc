-- ===== src/Jobs.antt =====
-- crates/background_jobs: durable jobs in an outbox table, and the worker that claims and runs them.
pub mod Outbox
pub mod Worker
