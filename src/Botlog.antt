-- ===== src/Botlog.antt =====
-- The bot-log stream, internal/topsrv/botlog: which lines are a bot's, and what an event holds.
pub mod Bots
pub mod Match
pub mod Values
pub mod Aliases
pub mod Event
pub mod Config
pub mod Detect
mod Tests
