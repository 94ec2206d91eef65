-- ===== src/Resources/Snapshot.antt =====
-- internal/resources/resources.go: Snapshot and WithReserves. Floats stand in thousandths of a CPU.
use zpinit.Base.{ℕ, ◌-◌, ◌/◌, Bool, if◌then◌else◌, ltb}
use zpinit.Base.Int.{ℤ, pos, pos_part, ◌-ℤ◌, ltb_ℤ}

pub record Snapshot : Type 0 where
  pub cpu_quota : ℤ
  pub cpu_count : ℤ
  pub memory_bytes : ℕ
  pub cgroup_resolved : Bool

-- int(q) rounds towards zero, and everything below one becomes one
unfoldable pub cpu_floor : ℤ → ℤ
cpu_floor q = let n = pos (pos_part q / 1000) in if ltb_ℤ n (pos 1) then pos 1 else n

unfoldable pub with_reserves : Snapshot → ℤ → ℕ → Snapshot
unfolding cpu_floor ◌-ℤ◌
with_reserves s reserve_cpu reserve_memory =
    let left = s.cpu_quota -ℤ reserve_cpu in
    let cpu = if ltb_ℤ left (pos 0) then pos 0 else left in
    record {
      cpu_quota = cpu;
      cpu_count = cpu_floor cpu;
      memory_bytes =
          if ltb reserve_memory s.memory_bytes then s.memory_bytes - reserve_memory else 0;
      cgroup_resolved = s.cgroup_resolved;
    }
