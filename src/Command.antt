-- ===== src/Command.antt =====
-- The executor of client commands (internal/command).
pub mod World
pub mod Keeps
pub mod Safety
pub mod Typed
pub mod Deliveries
pub mod Options
pub mod Strings
pub mod Generic
pub mod Hashes
pub mod Lists
pub mod Channels
pub mod Execute
