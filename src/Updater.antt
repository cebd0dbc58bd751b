-- ===== src/Updater.antt =====
-- internal/topsrv/updater.go: the self-update of the agent.
-- `Disk` holds the model of the files, `Version` the order of the backups, `Backups` the backups,
-- `Rollback` the crash-loop guard, and `Check` the update itself.
pub mod Disk
pub mod Version
pub mod Backups
pub mod Rollback
pub mod Check
mod Tests
