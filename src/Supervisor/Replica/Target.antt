-- ===== src/Supervisor/Replica/Target.antt =====
-- internal/supervisor/replica.go: the bounds of ComputeAutoTarget.
use zpinit.Base.{◌≡◌, ◌⊎◌, arith}
use zpinit.Base.Int.{pos, ◌≤ℤ◌}
use zpinit.Config.Types.{Service}
use zpinit.Config.Validate.Service.{max_replicas}
use zpinit.Resources.Snapshot.{Snapshot}
use zpinit.Supervisor.Replica.{compute_auto_target}

-- The target is between 1 and 64, whatever the service and the snapshot say.
pub compute_auto_target_range :
    (s : Service) (snap : Snapshot)
    → (pos 1 ≤ℤ compute_auto_target s snap) × (compute_auto_target s snap ≤ℤ pos max_replicas)
unfolding compute_auto_target
compute_auto_target_range s snap = ground arith

-- Bounds as validation accepts them: a bound that is not positive is not set.
pub record IsBoundsOk (s : Service) : Type 0 where
  pub min_le : s.replicas_min ≤ℤ pos max_replicas
  pub ordered : pos 1 ≤ℤ s.replicas_min → pos 1 ≤ℤ s.replicas_max → s.replicas_min ≤ℤ s.replicas_max

-- Under validated bounds the target keeps to both of them, and it is the detected CPU count exactly
-- where that count is at least 1, at most 64 and inside the bounds that are set.
pub compute_auto_target_bounds :
    (s : Service) (snap : Snapshot)
    → IsBoundsOk s
    → (pos 1 ≤ℤ s.replicas_min → s.replicas_min ≤ℤ compute_auto_target s snap)
      × (pos 1 ≤ℤ s.replicas_max → compute_auto_target s snap ≤ℤ s.replicas_max)
      × (pos 1 ≤ℤ snap.cpu_count
          → snap.cpu_count ≤ℤ pos max_replicas
          → s.replicas_min ≤ℤ snap.cpu_count
          → ((s.replicas_max ≤ℤ pos 0) ⊎ (snap.cpu_count ≤ℤ s.replicas_max))
          → compute_auto_target s snap ≡ snap.cpu_count)
unfolding compute_auto_target
compute_auto_target_bounds s snap ok = (ground arith, ground arith, ground arith)
