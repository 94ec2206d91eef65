-- ===== src/Config/Validate.antt =====
-- internal/config/load.go: validateService. An error is a constructor with what its message shows.
-- Entries of a Go map are visited in an order of their own; here in that of the list.
pub mod Service
pub mod Checks
pub mod Accepted
pub mod Minimal
pub mod Whole
pub mod Unique
pub mod Exit
pub mod Sound
