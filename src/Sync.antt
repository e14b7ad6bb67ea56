-- ===== src/Sync.antt =====
-- The package app/sync: punches on their way into the LMS database.
pub mod Time
pub mod Punch
pub mod Spool
pub mod Ingest
pub mod Liveness
pub mod Supervisor
pub mod Config
pub mod Database
