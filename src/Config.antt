-- ===== src/Config.antt =====
-- internal/config: the service and globals records, and the rules that read them.
pub mod Types
pub mod Signal
pub mod Replicas
pub mod Defaults
pub mod Validate
pub mod Load
