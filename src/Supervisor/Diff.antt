-- ===== src/Supervisor/Diff.antt =====
-- internal/supervisor/diff.go: what a reload does to each service file.
pub mod Choice
pub mod Keep
pub mod Pairs
pub mod Guard
pub mod Groups
pub mod InSync
use zpinit.Base.{
  ℕ, zero, suc, String, Bool, true, false, not, ◌&&◌, ◌||◌, Option, none, some, List, [], ◌∷◌, ◌++◌,
  length, if◌then◌else◌,
}
use zpinit.Base.Texts.{str_eq, text_ltb}
use zpinit.Resources.Snapshot.{Snapshot}
use zpinit.Config.Types.{StringMap, Service, FileError, Config, is_reloadable}
use zpinit.Supervisor.Runner.State.{Runner}
use zpinit.Supervisor.Equal.{env_maps_equal, services_equal}

-- The orchestrator: the committed config, the registered runners, the environment of their children,
-- the latch of stopAll, whether Run has published its context, and the last resource snapshot.
pub record Orchestrator : Type 0 where
  pub cfg : Config
  pub runners : List Runner
  pub base_env : List String
  pub stopping : Bool
  pub running : Bool
  pub current_snapshot : Snapshot
  pub resource_env : StringMap
  -- the active watcher of exit_code_from: the file and index of its target
  pub watcher : Option (String × ℕ)
  pub watcher_gen : ℕ

-- The old replicas of a restarted service, the first apart, since there is one, and the new spec.
pub record RestartPair : Type 0 where
  pub first : Runner
  pub others : List Runner
  pub new : Service

pub data Conflict : Type 0 where
  add_refused restart_refused : String → String → String → Conflict

pub record ReloadDiff : Type 0 where
  pub add : List Service
  pub remove : List Runner
  pub restart : List RestartPair
  pub conflicts : List Conflict

abbrev pub file_of : Runner → String
file_of r = r.cfg.filename

-- existing[fn]
unfoldable pub runners_of : String → List Runner → List Runner
runners_of fn [] = []
runners_of fn (r ∷ rest) =
    let more = runners_of fn rest in if str_eq (file_of r) fn then r ∷ more else more

abbrev or_else : Option Service → Service → Option Service
or_else none s = some s
or_else (some t) s = some t

-- newSet[fn]: a later service with the same file name replaces an earlier one
unfoldable pub service_of : String → List Service → Option Service
service_of fn [] = none
service_of fn (s ∷ rest) =
    let later = service_of fn rest in if str_eq s.filename fn then or_else later s else later

-- skipped[fn]
unfoldable pub is_skipped : String → List FileError → Bool
is_skipped fn [] = false
is_skipped fn (fe ∷ rest) = str_eq fe.file fn || is_skipped fn rest

-- one more key of allFiles, in the order of sort.Strings
unfoldable pub insert_file : String → List String → List String
insert_file fn [] = fn ∷ []
insert_file fn (g ∷ rest) =
    let more = insert_file fn rest in
    if str_eq fn g then g ∷ rest else if text_ltb fn g then fn ∷ g ∷ rest else g ∷ more

unfoldable pub runner_files : List Runner → List String → List String
runner_files [] files = files
runner_files (r ∷ rest) files = insert_file (file_of r) (runner_files rest files)

unfoldable pub service_files : List Service → List String
service_files [] = []
service_files (s ∷ rest) = insert_file s.filename (service_files rest)

-- the keys of existing and newSet, sorted
unfoldable pub ordered_files : List Runner → List Service → List String
unfolding runner_files service_files
ordered_files runners services = runner_files runners (service_files services)

-- What the switch decides for one file.
pub data Action : Type 0 where
  leave : Action
  removes : List Runner → Action
  adds : Service → Action
  restarts : RestartPair → Action

unfoldable pub decide : String → List Runner → Option Service → List FileError → Action
decide fn [] none skipped = leave
decide fn (r ∷ rest) none skipped = if is_skipped fn skipped then leave else removes (r ∷ rest)
decide fn [] (some s) skipped = adds s
decide fn (r ∷ rest) (some s) skipped =
    if services_equal r.spec s
    then leave
    else if is_reloadable r.spec
    then restarts (record { first = r; others = rest; new = s })
    else leave

abbrev pub no_changes : ReloadDiff
no_changes = record { add = []; remove = []; restart = []; conflicts = [] }

-- in front of what the later files decide
unfoldable pub prepend : Action → ReloadDiff → ReloadDiff
prepend leave d = d
prepend (removes rs) d = record d { remove = rs ++ d.remove }
prepend (adds s) d = record d { add = s ∷ d.add }
prepend (restarts p) d = record d { restart = p ∷ d.restart }

unfoldable pub walk_files : List String → List Runner → Config → ReloadDiff
unfolding prepend
walk_files [] runners new = no_changes
walk_files (fn ∷ rest) runners new =
    prepend (decide fn (runners_of fn runners) (service_of fn new.services) new.skipped_files)
      (walk_files rest runners new)

unfoldable pub in_removed : String → List Runner → Bool
in_removed fn [] = false
in_removed fn (r ∷ rest) = str_eq (file_of r) fn || in_removed fn rest

unfoldable pub in_restarted : String → List RestartPair → Bool
in_restarted fn [] = false
in_restarted fn (p ∷ rest) = str_eq (file_of p.first) fn || in_restarted fn rest

-- the sets inDiff and gone
unfoldable pub is_in : String → ReloadDiff → Bool
unfolding in_removed in_restarted
is_in fn d = in_removed fn d.remove || in_restarted fn d.restart

-- the restart of one file for a changed [env]
unfoldable pub env_restart : Bool → List Runner → Option Service → List RestartPair
env_restart touched [] s = []
env_restart touched (r ∷ rest) none = []
env_restart touched (r ∷ rest) (some s) =
    if touched
    then []
    else if not (is_reloadable r.spec)
    then []
    else record { first = r; others = rest; new = s } ∷ []

unfoldable pub env_restarts : List String → ReloadDiff → List Runner → Config → List RestartPair
unfolding env_restart
env_restarts [] d runners new = []
env_restarts (fn ∷ rest) d runners new =
    env_restart (is_in fn d) (runners_of fn runners) (service_of fn new.services)
    ++ env_restarts rest d runners new

unfoldable pub propagate_env : Bool → List String → ReloadDiff → List Runner → Config → ReloadDiff
unfolding env_restarts
propagate_env same files d runners new =
    if same then d else record d { restart = d.restart ++ env_restarts files d runners new }

abbrev names : String → List Runner → Bool
names name [] = false
names name (r ∷ rest) = str_eq r.cfg.name name

abbrev or_this : Option String → Bool → String → Option String
or_this (some later) here fn = some later
or_this none here fn = if here then some fn else none

-- retained[name]: the map is filled in the order in which Go visits the keys of existing, here the
-- list `visits`, and a later file with the same name replaces an earlier one
unfoldable pub retained_file : String → List String → ReloadDiff → List Runner → Option String
retained_file name [] d runners = none
retained_file name (fn ∷ rest) d runners =
    or_this (retained_file name rest d runners)
      (not (is_in fn d) && names name (runners_of fn runners)) fn

-- the file that already runs the name of a service, if another one does
abbrev pub clash : Option String → String → Option String
clash none fn = none
clash (some other) fn = if str_eq other fn then none else some other

abbrev pub clash_of : List String → ReloadDiff → List Runner → Service → Option String
clash_of visits d runners s = clash (retained_file s.name visits d runners) s.filename

-- an action without a clash is kept, one with a clash becomes a conflict
unfoldable pub keep_or_refuse {ℓ} :
    {A : Type ℓ}
    → Option String
    → A
    → (String → Conflict)
    → List A × List Conflict
    → List A × List Conflict
keep_or_refuse none a refused (kept, conflicts) = (a ∷ kept, conflicts)
keep_or_refuse (some other) a refused (kept, conflicts) = (kept, refused other ∷ conflicts)

unfoldable pub keep_adds :
    List String → ReloadDiff → List Runner → List Service → List Service × List Conflict
keep_adds visits d runners [] = ([], [])
keep_adds visits d runners (s ∷ rest) =
    keep_or_refuse (clash_of visits d runners s) s (add_refused s.filename s.name)
      (keep_adds visits d runners rest)

unfoldable pub keep_restarts :
    List String → ReloadDiff → List Runner → List RestartPair → List RestartPair × List Conflict
keep_restarts visits d runners [] = ([], [])
keep_restarts visits d runners (p ∷ rest) =
    keep_or_refuse (clash_of visits d runners p.new) p (restart_refused p.new.filename p.new.name)
      (keep_restarts visits d runners rest)

-- the guard against a name that another service keeps
unfoldable pub guard_names : List String → ReloadDiff → List Runner → ReloadDiff
guard_names visits d runners =
    let (add, add_conflicts) = keep_adds visits d runners d.add in
    let (restart, restart_conflicts) = keep_restarts visits d runners d.restart in
    record {
      add = add;
      remove = d.remove;
      restart = restart;
      conflicts = d.conflicts ++ (add_conflicts ++ restart_conflicts);
    }

-- the diff before the guard
unfoldable pub proposed : Orchestrator → Config → ReloadDiff
unfolding ordered_files walk_files propagate_env
proposed o new =
    let files = ordered_files o.runners new.services in
    propagate_env (env_maps_equal o.cfg.globals.env new.globals.env) files
      (walk_files files o.runners new) o.runners new

unfoldable pub compute_diff : List String → Orchestrator → Config → ReloadDiff
unfolding proposed guard_names
compute_diff visits o new = guard_names visits (proposed o new) o.runners

-- the runners of the first group of groupByFilename, and those after it
unfoldable pub split_group : String → List Runner → List Runner × List Runner
split_group fn [] = ([], [])
split_group fn (r ∷ rest) =
    let (group, after) = split_group fn rest in
    if str_eq (file_of r) fn then (r ∷ group, after) else ([], r ∷ rest)

-- With as much fuel as there are runners the loop ends by its test.
unfoldable pub group_with : ℕ → List Runner → List (List Runner)
unfolding split_group
group_with zero rs = []
group_with (suc fuel) [] = []
group_with (suc fuel) (r ∷ rest) =
    let (group, after) = split_group (file_of r) rest in (r ∷ group) ∷ group_with fuel after

unfoldable pub group_by_filename : List Runner → List (List Runner)
unfolding group_with
group_by_filename rs = group_with (length rs) rs
