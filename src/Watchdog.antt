-- ===== src/Watchdog.antt =====
-- The package src/pz_watchdog: the lifecycle watchdog of the game server.
pub mod Models
pub mod Ports
pub mod Engine
pub mod Shutdown
pub mod Rcon
pub mod Cli
pub mod Config
pub mod Processes
pub mod Service
