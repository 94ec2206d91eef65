-- ===== src/Resources.antt =====
-- internal/resources: the detected CPU and memory budget, and the watcher over it.
pub mod Snapshot
pub mod Watcher
