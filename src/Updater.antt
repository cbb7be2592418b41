-- ===== src/Updater.antt =====
-- The package src/pz_updater: the release updater of the game server.
pub mod Cli
pub mod Config
pub mod Players
pub mod Steam
pub mod Vdf
pub mod Acceptance
pub mod Backup
pub mod Exec
pub mod State
pub mod Machine
pub mod Layout
pub mod Recovery
pub mod Update
pub mod Lifecycle
pub mod Start
pub mod Soundness
pub mod Committed
mod Tests
