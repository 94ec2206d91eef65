-- ===== src/Samples/Scaling.antt =====
-- The replica and scaling theorems on a group of workers.
use Prim.Native.Nat.{max}
use zpinit.Base.{ℕ, ◌≡◌, ◌≢◌, refl, String, true, some, none, List, [], ◌∷◌, if◌then◌else◌, arith}
use zpinit.Base.Int.{pos}
use zpinit.Base.Texts.{str_eq}
use zpinit.Resources.Snapshot.{Snapshot}
use zpinit.Supervisor.Replica.Target.{IsBoundsOk}
use zpinit.Supervisor.Runner.State.{running, stopped, Runner, is_terminal}
use zpinit.Supervisor.Diff.{Orchestrator, runners_of}
use zpinit.Supervisor.Scale.{current_auto_state, scale_up, scale_down, is_victim}
use zpinit.Supervisor.Scale.Growth.{replicas_of, scale_up_target}
use zpinit.Supervisor.Scale.Shrink.{below, IsStop, scale_down_target}
use zpinit.Samples.Data.{web, workers, runner, child, web_running, orchestrator}

abbrev four_cpus : Snapshot
four_cpus = record {
  cpu_quota = pos 4000;
  cpu_count = pos 4;
  memory_bytes = 1000;
  cgroup_resolved = true;
}

workers-IsBoundsOk : IsBoundsOk workers
workers-IsBoundsOk = record { min_le = ground arith; ordered = λ a b. ground arith }

abbrev base : List String
base = "A=1" ∷ "ZPINIT_REPLICA_INDEX=0" ∷ []

abbrev worker : ℕ → Runner
worker i = runner workers i running (some (child none))

-- replicas 0 and 5 run, of a service that wants three
abbrev group : List Runner
group = worker 0 ∷ worker 5 ∷ []

abbrev before : Orchestrator
before = orchestrator (web ∷ workers ∷ []) (web_running ∷ group)

current : current_auto_state "20-work.toml" before ≡ some (workers, group)
unfolding current_auto_state runners_of
current = refl

scale_up_target_example :
    replicas_of "20-work.toml" (scale_up "20-work.toml" base before).runners ≡ (
      if str_eq "20-work.toml" "20-work.toml"
      then max 3 (replicas_of "20-work.toml" before.runners)
      else replicas_of "20-work.toml" before.runners)
scale_up_target_example =
    scale_up_target "20-work.toml" "20-work.toml" base before workers group 3 current refl refl refl

abbrev stop_now : Runner → Runner
stop_now r = record r { state = stopped; process = none }

stop_now-IsStop : IsStop stop_now
stop_now-IsStop = record { same_file = λ r. refl; same_index = λ r. refl }

scale_down_target_example :
    (((r : Runner)
        → is_victim "20-work.toml" (pos 3) r ≡ true
        → is_terminal (stop_now r).state ≡ true)
      → runners_of "20-work.toml" (scale_down "20-work.toml" stop_now before).runners
        ≡ below 3 (runners_of "20-work.toml" before.runners))
    × ((g : String)
        → g ≢ "20-work.toml"
        → runners_of g (scale_down "20-work.toml" stop_now before).runners
          ≡ runners_of g before.runners)
scale_down_target_example =
    scale_down_target "20-work.toml" stop_now before workers group 3 stop_now-IsStop current refl
