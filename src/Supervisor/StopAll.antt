-- ===== src/Supervisor/StopAll.antt =====
-- internal/supervisor/orchestrator.go: the teardown, and the time that it may take.
pub mod Order
pub mod Lists
pub mod Teardown
use mathlib.Core.List.{reverse}
use zpinit.Base.{List, [], ◌∷◌, ◌++◌, map, true, if◌then◌else◌}
use zpinit.Base.Int.{ℤ, pos, ◌+ℤ◌}
use zpinit.Config.Types.{Service, Duration}
use zpinit.Supervisor.Runner.State.{Runner, is_terminal, set_shutting_down}
use zpinit.Supervisor.Diff.{Orchestrator, group_by_filename}

pub data StopEvent : Type 0 where
  signals awaits : Runner → StopEvent

-- The runners of a group that have not ended when it is reached; `at` is the environment's answer of
-- what a runner is then.
unfoldable pub live : (Runner → Runner) → List Runner → List Runner
live at [] = []
live at (r ∷ rest) = let more = live at rest in if is_terminal (at r).state then more else r ∷ more

-- stopRunnerGroup: the stops go out together, and the end of each is awaited
unfoldable pub stop_runner_group : (Runner → Runner) → List Runner → List StopEvent
unfolding live
stop_runner_group at group = map signals (live at group) ++ map awaits (live at group)

unfoldable pub stop_groups : (Runner → Runner) → List (List Runner) → List StopEvent
unfolding stop_runner_group
stop_groups at [] = []
stop_groups at (g ∷ rest) = stop_runner_group at g ++ stop_groups at rest

unfoldable pub stop_all : (Runner → Runner) → Orchestrator → Orchestrator × List StopEvent
unfolding stop_groups set_shutting_down
stop_all at o = (
  record o { stopping = true; runners = map (set_shutting_down true) o.runners },
  stop_groups at (reverse (group_by_filename o.runners)),
)

-- five seconds, in nanoseconds
abbrev pub reap_grace : Duration
reap_grace = pos 5000000000

abbrev pub shutdown_headroom : Duration
shutdown_headroom = pos 30000000000

unfoldable pub services_stop_budget : List Service → Duration
unfolding ◌+ℤ◌
services_stop_budget [] = pos 0
services_stop_budget (s ∷ rest) = s.stop_timeout +ℤ reap_grace +ℤ services_stop_budget rest

-- the share of one group
abbrev group_budget : List Runner → Duration
group_budget [] = pos 0
group_budget (r ∷ rest) = r.cfg.stop_timeout +ℤ reap_grace

unfoldable pub groups_budget : List (List Runner) → Duration
unfolding ◌+ℤ◌
groups_budget [] = pos 0
groups_budget (g ∷ rest) = group_budget g +ℤ groups_budget rest

unfoldable pub shutdown_budget : Orchestrator → Duration
unfolding groups_budget
shutdown_budget o = shutdown_headroom +ℤ groups_budget (group_by_filename o.runners)
