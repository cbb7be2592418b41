-- ===== src/Updater/Soundness.antt =====
-- The machine between two steps of the updater: what holds of the pointer of the active release,
-- the releases and the recorded state, also where the process ends in the middle.
pub mod Rules
pub mod Invariant
mod Steps
mod Pointers
mod Recover
mod Handlers
mod Staging
mod Activation
mod Install
pub mod Operations
mod Query
pub mod Launch
pub mod Reading
mod Waiting
pub mod Commands
