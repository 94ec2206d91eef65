-- ===== src/Reaper.antt =====
-- internal/reaper: wait(2) for every child, and delivery of exits to the runners.
pub mod Exit
pub mod Loop
pub mod Delivery
