-- ===== src/Supervisor/Fanout.antt =====
-- internal/supervisor/reload.go: the reload of services in place (reloadOne, ReloadService,
-- reloadAcrossGroups), and OnResourceChange, which rescales and then reloads who subscribed.
pub mod Writes
pub mod Groups
pub mod Inputs
use zpinit.Base.{
  ℕ, zero, suc, String, Bool, true, false, not, ◌&&◌, ◌||◌, Option, none, some, List, [], ◌∷◌, ◌++◌,
  map, length, set, replicate, ◌==◌, if◌then◌else◌,
}
use zpinit.Base.Texts.{codes, str_eq, text_ltb}
use zpinit.Reaper.Exit.{ExitInfo}
use zpinit.Resources.Snapshot.{Snapshot}
use zpinit.Resources.Watcher.{Change}
use zpinit.Config.Types.{StringMap, or_default, is_nonempty}
use zpinit.Config.Signal.{parse_signal}
use zpinit.Config.Validate.Service.{mem_text}
use zpinit.Supervisor.Runner.State.{Runner, set_base_env}
use zpinit.Supervisor.Runner.Handlers.{StartError}
use zpinit.Supervisor.Runner.Waits.{SignalError, signal_group, RestartError}
use zpinit.Supervisor.Diff.{Orchestrator, file_of}
use zpinit.Supervisor.Reload.{EnvBuilder, build_env}
use zpinit.Supervisor.Scale.{AutoScaleAction, plan_auto_scale, apply_auto_scale}

pub data ReloadFailure : Type 0 where
  invalid_signal : String → ReloadFailure
  signal_failed : SignalError → ReloadFailure
  not_started overran : ReloadFailure
  killed_by exited : ℕ → ReloadFailure
  restart_failed : RestartError StartError → ReloadFailure

-- What a reload meets at a runner: whether its command starts, with what it ends in time, and what a
-- restart answers.
pub record Encounter : Type 0 where
  pub starts : Bool
  pub ends : Option ExitInfo
  pub restart : Option (RestartError StartError)

abbrev by_signal : String → Runner → Option ℕ → Option ReloadFailure
by_signal name r none = some (invalid_signal name)
by_signal name r (some sig) = elim (signal_group sig r.process).0 [
  | none ↦ none
  | some e ↦ some (signal_failed e)
]

abbrev after_command : Option ExitInfo → Option ReloadFailure
after_command none = some overran
after_command (some info) =
    if info.signaled
    then some (killed_by info.signal)
    else if info.exit_code == 0
    then none
    else some (exited info.exit_code)

abbrev by_command : Encounter → Option ReloadFailure
by_command m = if m.starts then after_command m.ends else some not_started

abbrev by_restart : Option (RestartError StartError) → Option ReloadFailure
by_restart none = none
by_restart (some e) = some (restart_failed e)

unfoldable pub reload_one : (Runner → Encounter) → Runner → Option ReloadFailure
unfolding signal_group parse_signal
reload_one meets r =
    if not (str_eq r.cfg.reload_signal "")
    then by_signal r.cfg.reload_signal r (parse_signal (codes r.cfg.reload_signal))
    else if is_nonempty (or_default [] r.cfg.reload_command)
    then by_command (meets r)
    else by_restart (meets r).restart

-- The runners of a group reload at once; their errors come in the order of the group.
unfoldable pub reload_service : (Runner → Encounter) → List Runner → List (Option ReloadFailure)
unfolding reload_one
reload_service meets group = map (reload_one meets) group

-- a group of runners with their places in the input
pub record Group : Type 0 where
  pub file : String
  pub members : List (ℕ × Runner)

unfoldable pub add_member : ℕ → Runner → List Group → List Group
add_member i r [] = record { file = file_of r; members = (i, r) ∷ [] } ∷ []
add_member i r (g ∷ rest) =
    let later = add_member i r rest in
    if str_eq g.file (file_of r)
    then record g { members = g.members ++ (i, r) ∷ [] } ∷ rest
    else g ∷ later

unfoldable pub group_from : ℕ → List Runner → List Group → List Group
unfolding add_member
group_from i [] groups = groups
group_from i (r ∷ rest) groups = group_from (suc i) rest (add_member i r groups)

unfoldable pub insert_group : Group → List Group → List Group
unfolding text_ltb
insert_group g [] = g ∷ []
insert_group g (h ∷ rest) =
    let later = insert_group g rest in if text_ltb h.file g.file then h ∷ later else g ∷ h ∷ rest

unfoldable pub sort_groups : List Group → List Group
unfolding insert_group
sort_groups [] = []
sort_groups (g ∷ rest) = insert_group g (sort_groups rest)

-- the errors of a group, each put in the place of its runner
abbrev pub write_back :
    List (ℕ × Runner)
    → List (Option ReloadFailure)
    → List (Option ReloadFailure)
    → List (Option ReloadFailure)
write_back ((i, r) ∷ members) (e ∷ errs) out = write_back members errs (set out i e)
write_back members errs out = out

unfoldable pub dispatch_groups :
    (Runner → Encounter) → List Group → List (Option ReloadFailure) → List (Option ReloadFailure)
unfolding reload_service
dispatch_groups meets [] out = out
dispatch_groups meets (g ∷ rest) out =
    dispatch_groups meets rest
      (write_back g.members (reload_service meets (map (λ ((i, r) : ℕ × Runner). r) g.members)) out)

-- the errors by input; the joined error is those that are not nil
unfoldable pub reload_across_groups :
    (Runner → Encounter) → List Runner → List (Option ReloadFailure)
unfolding dispatch_groups sort_groups group_from
reload_across_groups meets runners =
    dispatch_groups meets (sort_groups (group_from 0 runners [])) (replicate (length runners) none)

abbrev pub intersects : List String → List String → Bool
intersects [] dimensions = false
intersects (want ∷ rest) dimensions = mem_text want dimensions || intersects rest dimensions

unfoldable pub affected_by : List String → List Runner → List Runner
unfolding mem_text
affected_by dimensions [] = []
affected_by dimensions (r ∷ rest) =
    let more = affected_by dimensions rest in
    if intersects (or_default [] r.cfg.reload_on_change) dimensions then r ∷ more else more

unfoldable pub set_resource_env : EnvBuilder → StringMap → Orchestrator → Orchestrator
unfolding set_base_env
set_resource_env builder env o =
    let o' = record o { resource_env = env } in
    let base = build_env builder o.cfg.globals.env o' in
    record o' { base_env = base; runners = map (set_base_env base) o.runners }

pub data Fanout : Type 0 where
  ignored nobody skipped : Fanout
  reloading : List (Option ReloadFailure) → Fanout

abbrev fan_out : Bool → (Runner → Encounter) → List Runner → Fanout
fan_out stopping meets [] = nobody
fan_out stopping meets (r ∷ rest) =
    if stopping then skipped else reloading (reload_across_groups meets (r ∷ rest))

abbrev rescaled : (Runner → Runner) → Orchestrator × List AutoScaleAction → Orchestrator
rescaled after (o, actions) = apply_auto_scale actions o.base_env after o

-- The environment of a snapshot is a parameter, since it prints a float; so is whether the supervisor
-- has begun to stop when the reloads would start.
unfoldable pub on_resource_change :
    (Snapshot → StringMap)
    → EnvBuilder
    → (Runner → Runner)
    → Bool
    → (Runner → Encounter)
    → Change
    → Orchestrator
    → Orchestrator × Fanout
unfolding set_resource_env plan_auto_scale apply_auto_scale affected_by reload_across_groups
on_resource_change env_vars builder after stopping_then meets change o =
    let o1 = record (set_resource_env builder (env_vars change.snapshot) o) {
      current_snapshot = change.snapshot;
    } in
    let o2 = rescaled after (plan_auto_scale change.snapshot o1) in
    if o.stopping
    then (o, ignored)
    else (o2, fan_out stopping_then meets (affected_by change.dimensions o2.runners))
