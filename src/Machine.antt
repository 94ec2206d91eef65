-- ===== src/Machine.antt =====
-- internal/machine: what a machine without a container around it needs.
pub mod Oom
