-- ===== src/Migration.antt =====
-- Migration-assisted reads and writes: migration_op_tracker.go, migrator_base.go and migrator.go.
pub mod Tracker
pub mod Migrator
pub mod Results
pub mod Building
pub mod Measured
pub mod Events
pub mod Builder
