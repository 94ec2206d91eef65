-- ===== src/Supervisor.antt =====
-- internal/supervisor: the runner of one service, replicas, autoscaling and reload.
pub mod Replica
pub mod Runner
pub mod Equal
pub mod Diff
pub mod Registry
pub mod Reload
pub mod Scoped
pub mod Readiness
pub mod Boot
pub mod StopAll
pub mod Watch
pub mod Targets
pub mod Scale
pub mod Fanout
