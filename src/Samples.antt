-- ===== src/Samples.antt =====
-- Runs on concrete data.
pub mod Data
mod Runners
mod Reaping
mod Reloads
mod Scaling
mod Watching
mod Parts
mod Applying
mod Lifecycle
mod Commands
mod Kills
mod Loading
