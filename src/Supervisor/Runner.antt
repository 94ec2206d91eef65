-- ===== src/Supervisor/Runner.antt =====
-- internal/supervisor/runner.go: the state machine of one service.
pub mod State
pub mod Handlers
pub mod Loop
pub mod Waits
pub mod Channel
pub mod Waiting
pub mod Observing
pub mod Invariant
pub mod Effects
pub mod Removal
pub mod Policy
pub mod CrashLoop
pub mod Backoff
pub mod Stopping
