-- ===== src/Supervisor/Reload.antt =====
-- internal/supervisor/reload.go: how a diff is applied, and the whole reload. What a stop and the wait
-- for it leave of a runner is the environment's answer `after`, and so is whether stopAll has begun
-- by the time that the stops are done.
pub mod Removed
pub mod Specs
pub mod Planned
pub mod Jobs
pub mod Whole
pub mod Realised
pub mod Refinement
pub mod Failures
use mathlib.Core.List.{reverse}
use zpinit.Base.{
  String, Bool, true, false, ◌||◌, Option, none, some, List, [], ◌∷◌, ◌++◌, map, if◌then◌else◌, ℕ,
  ◌+◌,
}
use zpinit.Base.Texts.{str_eq, text_ltb}
use zpinit.Config.Types.{StringMap, Service, Config, is_nonempty, needs_resource_watch}
use zpinit.Supervisor.Replica.{expand_service_to_runners, resolve_auto_replicas_at_boot}
use zpinit.Supervisor.Runner.State.{Runner, display_name, is_terminal}
use zpinit.Supervisor.Diff.{
  Orchestrator, RestartPair, ReloadDiff, Conflict, file_of, compute_diff, group_by_filename,
}
use zpinit.Supervisor.Registry.{
  RegisterError, runner_of, register_and_boot, remove_service_group, has_replica, find_runner,
}

pub data ReloadError : Type 0 where
  name_taken : Conflict → ReloadError
  still_alive : String → ReloadError
  not_registered : RegisterError → ReloadError

-- errs of removeServiceGroup: the runners of the group that did not end
unfoldable pub remove_errors : (Runner → Runner) → List Runner → List ReloadError
unfolding display_name
remove_errors after [] = []
remove_errors after (r ∷ rest) =
    let more = remove_errors after rest in
    if is_terminal (after r).state then more else still_alive (display_name r) ∷ more

unfoldable pub remove_group :
    (Runner → Runner) → List Runner → Orchestrator → Orchestrator × List ReloadError
unfolding remove_errors
remove_group after group o = (
  record o { runners = remove_service_group (λ r. has_replica r group) after o.runners },
  remove_errors after group,
)

unfoldable pub remove_groups :
    (Runner → Runner) → List (List Runner) → Orchestrator → Orchestrator × List ReloadError
unfolding remove_group
remove_groups after [] o = (o, [])
remove_groups after (g ∷ rest) o =
    let (o', errs) = remove_group after g o in
    let (o'', more) = remove_groups after rest o' in (o'', errs ++ more)

abbrev pub old_of : RestartPair → List Runner
old_of p = p.first ∷ p.others

-- the order of the restarts: the greatest file name first
unfoldable pub insert_restart : RestartPair → List RestartPair → List RestartPair
insert_restart p [] = p ∷ []
insert_restart p (q ∷ rest) =
    let later = insert_restart p rest in
    if text_ltb q.new.filename p.new.filename then p ∷ q ∷ rest else q ∷ later

unfoldable pub sort_restarts : List RestartPair → List RestartPair
unfolding insert_restart
sort_restarts [] = []
sort_restarts (p ∷ rest) = insert_restart p (sort_restarts rest)

-- the loop over the restarts: the registry, the specs to start, and the errors
unfoldable pub restart_groups :
    (Runner → Runner)
    → List RestartPair
    → Orchestrator
    → Orchestrator × List Service × List ReloadError
restart_groups after [] o = (o, [], [])
restart_groups after (p ∷ rest) o =
    let (o', errs) = remove_group after (old_of p) o in
    let (o'', specs, more) = restart_groups after rest o' in
    (o'', (if is_nonempty errs then specs else p.new ∷ specs), errs ++ more)

unfoldable pub insert_spec : Service → List Service → List Service
insert_spec s [] = s ∷ []
insert_spec s (t ∷ rest) =
    let later = insert_spec s rest in
    if text_ltb s.filename t.filename then s ∷ t ∷ rest else t ∷ later

unfoldable pub sort_specs : List Service → List Service
unfolding insert_spec
sort_specs [] = []
sort_specs (s ∷ rest) = insert_spec s (sort_specs rest)

-- the runners of a service that starts
unfoldable pub fresh : List String → Service → List Runner
unfolding runner_of
fresh env s = map runner_of (expand_service_to_runners s env)

unfoldable pub boot_jobs : List String → List Service → List Runner
unfolding fresh
boot_jobs env [] = []
boot_jobs env (s ∷ rest) = fresh env s ++ boot_jobs env rest

abbrev pub key_of : Runner → String × ℕ
key_of r = (file_of r, r.replica_index)

-- The old watcher is canceled; its successor has a new generation.
abbrev watch_runner : Option Runner → Orchestrator → Orchestrator
watch_runner none o = record o { watcher = none }
watch_runner (some r) o = record o { watcher = some (key_of r); watcher_gen = o.watcher_gen + 1 }

unfoldable pub install_exit_code_watcher : Orchestrator → Orchestrator
unfolding find_runner
install_exit_code_watcher o =
    let name = o.cfg.globals.exit_code_from in
    if str_eq name "default"
    then record o { watcher = none }
    else watch_runner (find_runner name o.runners) o

abbrev register_errors : Option RegisterError → List ReloadError
register_errors none = []
register_errors (some e) = not_registered e ∷ []

-- What a reload leaves: the orchestrator, the errors that it joins, and what the commit hook is told.
pub record Applied : Type 0 where
  pub after : Orchestrator
  pub errors : List ReloadError
  pub needs_watch : Bool

unfoldable pub apply_reload_diff :
    (Runner → Runner) → Bool → ReloadDiff → Config → List String → Orchestrator → Applied
unfolding remove_groups restart_groups sort_restarts sort_specs boot_jobs install_exit_code_watcher
apply_reload_diff after stopped d commit env o =
    let (o1, errs) = remove_groups after (reverse (group_by_filename d.remove)) o in
    let (o2, specs, more) = restart_groups after (sort_restarts d.restart) o1 in
    let jobs = boot_jobs env (sort_specs (specs ++ d.add)) in
    let (o3, refused) =
      register_and_boot jobs (some (commit, env))
        (record o2 { stopping = o2.stopping || stopped }) in
    let o4 = install_exit_code_watcher o3 in
    record {
      after = o4;
      errors = map name_taken d.conflicts ++ (errs ++ (more ++ register_errors refused));
      needs_watch = needs_resource_watch o4.cfg;
    }

-- baseEnvBuilder, if main has set one
abbrev pub EnvBuilder : Type 0
EnvBuilder = Option (StringMap → StringMap → List String)

abbrev pub build_env : EnvBuilder → StringMap → Orchestrator → List String
build_env none globals o = o.base_env
build_env (some f) globals o = f globals o.resource_env

pub data Reloaded : Type 0 where
  refused : RegisterError → Reloaded
  applied : ReloadDiff → Applied → Reloaded

-- the new config with the replica counts of its auto services
abbrev pub resolve : Config → Orchestrator → Config
resolve new o = record new {
  services = resolve_auto_replicas_at_boot new.services o.current_snapshot;
}

unfoldable pub reload :
    (Runner → Runner) → Bool → EnvBuilder → List String → Config → Orchestrator → Reloaded
unfolding apply_reload_diff
reload after stopped builder visits new o =
    let new' = resolve new o in
    let d = compute_diff visits o new' in
    if o.stopping
    then refused RegisterError.shutting_down
    else applied d (apply_reload_diff after stopped d new' (build_env builder new'.globals.env o) o)
