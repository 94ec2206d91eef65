-- ===== src/Supervisor/Registry.antt =====
-- internal/supervisor/orchestrator.go, reload.go and diff.go: the registry of runners.
pub mod Order
use zpinit.Base.{
  ℕ, ◌+◌, String, Bool, false, not, ◌&&◌, ◌||◌, Option, none, some, List, [], ◌∷◌, ◌++◌, ltb, ◌==◌,
  if◌then◌else◌,
}
use zpinit.Base.Texts.{str_eq, text_ltb}
use zpinit.Config.Types.{Config}
use zpinit.Supervisor.Replica.{ReplicaSpec}
use zpinit.Supervisor.Runner.State.{Runner, new_runner_for_replica, is_terminal, clear_removing}
use zpinit.Supervisor.Diff.{Orchestrator, file_of}

-- the runner of a replica
unfoldable pub runner_of : ReplicaSpec → Runner
unfolding new_runner_for_replica
runner_of r = new_runner_for_replica r.cfg r.spec r.env r.index

-- the order of sortRunners
unfoldable pub runner_ltb : Runner → Runner → Bool
unfolding text_ltb
runner_ltb a b =
    if not (str_eq (file_of a) (file_of b))
    then text_ltb (file_of a) (file_of b)
    else ltb a.replica_index b.replica_index

unfoldable pub insert_runner : Runner → List Runner → List Runner
unfolding runner_ltb
insert_runner r [] = r ∷ []
insert_runner r (q ∷ rest) =
    let later = insert_runner r rest in if runner_ltb r q then r ∷ q ∷ rest else q ∷ later

-- The keys of registered runners differ, so every sort gives the same order.
unfoldable pub sort_runners : List Runner → List Runner
unfolding insert_runner
sort_runners [] = []
sort_runners (r ∷ rest) = insert_runner r (sort_runners rest)

pub data RegisterError : Type 0 where
  shutting_down not_running : RegisterError

-- the config and environment that are committed with a registration
abbrev pub commit_with : Option (Config × List String) → Orchestrator → Orchestrator
commit_with none o = o
commit_with (some (cfg, base_env)) o = record o { cfg = cfg; base_env = base_env }

unfoldable pub register_and_boot :
    List Runner → Option (Config × List String) → Orchestrator → Orchestrator × Option RegisterError
unfolding sort_runners
register_and_boot jobs commit o =
    if o.stopping
    then (o, some shutting_down)
    else if not o.running
    then (o, some not_running)
    else (commit_with commit (record o { runners = sort_runners (o.runners ++ jobs) }), none)

-- The stops of a group, all at once. What a stop and the wait for it leave of a runner is the
-- environment's answer; one that did not end stays registered, and its latch is lifted.
unfoldable pub remove_service_group :
    (Runner → Bool) → (Runner → Runner) → List Runner → List Runner
unfolding clear_removing
remove_service_group in_group after [] = []
remove_service_group in_group after (r ∷ rest) =
    let kept = remove_service_group in_group after rest in
    if not (in_group r)
    then r ∷ kept
    else if is_terminal (after r).state
    then kept
    else clear_removing (after r) ∷ kept

-- Whether a list holds the replica of a runner: removeSet[r], where the group and the registry hold the
-- same runners, of which no two have one file and one index.
unfoldable pub has_replica : Runner → List Runner → Bool
has_replica r [] = false
has_replica r (q ∷ rest) =
    str_eq (file_of q) (file_of r) && q.replica_index == r.replica_index || has_replica r rest

-- findRunnerLocked
unfoldable pub find_runner : String → List Runner → Option Runner
find_runner name [] = none
find_runner name (r ∷ rest) = if str_eq r.cfg.name name then some r else find_runner name rest

abbrev exit_of : Option Runner → ℕ
exit_of none = 0
exit_of (some r) = if r.last_exit.signaled then 128 + r.last_exit.signal else r.last_exit.exit_code

unfoldable pub exit_code : Orchestrator → ℕ
unfolding find_runner
exit_code o =
    let name = o.cfg.globals.exit_code_from in
    if str_eq name "default" then 0 else exit_of (find_runner name o.runners)

abbrev oom_of : Option Runner → Bool
oom_of none = false
oom_of (some r) = r.last_exit.oom_killed

unfoldable pub exit_oom_killed : Orchestrator → Bool
unfolding find_runner
exit_oom_killed o =
    let name = o.cfg.globals.exit_code_from in
    if str_eq name "default" then false else oom_of (find_runner name o.runners)
