-- ===== src/Packages.antt =====
-- The inventory of packages, internal/topsrv/packages.
pub mod Snapshot
pub mod Dpkg
pub mod Apk
pub mod Kernel
pub mod SourceRpm
pub mod Marks
pub mod Host
pub mod Rpm
pub mod Collector
mod Tests
