-- ===== src/Samples/Reaping.antt =====
-- The reaper's theorems on a few answers of wait4.
use zpinit.Base.{◌≡◌, refl, true, none, List, [], ◌∷◌, ◌==◌, length, if◌then◌else◌}
use zpinit.Reaper.Exit.{no_exit}
use zpinit.Reaper.Loop.{
  Wait, child, eintr, nothing_left, exited, signaled_by, Reaper, PendingOom, find_tracking, reap,
}
use zpinit.Reaper.Delivery.{statuses, exits, due, orphans_of, left_over, reap_accounts}

abbrev reaper : Reaper
reaper = record {
  has_oom = true;
  tracked = (42, record { ch = 1; start = 9 }) ∷ [];
  next_channel = 2;
}

abbrev waits : List Wait
waits =
    child 7 (exited 0) ∷ eintr ∷ child 42 (signaled_by 9) ∷ child 42 (exited 1) ∷ nothing_left ∷ []

reap_accounts_example :
    let ss = statuses 42 waits in
    let (r', x) = reap waits reaper in
    (exits 42 x ≡ due 42 ss (find_tracking 42 reaper.tracked))
    × (orphans_of 42 x.orphans ≡ left_over 42 ss (find_tracking 42 reaper.tracked))
    × (find_tracking 42 r'.tracked
        ≡ (if length ss == 0 then find_tracking 42 reaper.tracked else none))
reap_accounts_example = reap_accounts 42 waits reaper

reaped_twice : statuses 42 waits ≡ signaled_by 9 ∷ exited 1 ∷ []
unfolding statuses
reaped_twice = refl

abbrev pending : List PendingOom
pending = record { t = record { ch = 1; start = 9 }; info = record no_exit { pid = 42 } } ∷ []
