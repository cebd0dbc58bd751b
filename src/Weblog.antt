-- ===== src/Weblog.antt =====
-- The web-log stream, internal/topsrv/weblog: which files are safe to ship, and which lines go.
pub mod Formats
pub mod Lines
pub mod Observe
pub mod Config
mod Tests
