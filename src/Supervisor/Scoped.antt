-- ===== src/Supervisor/Scoped.antt =====
-- internal/supervisor/reload.go: ReloadScoped, the reload of the services that are named.
pub mod Restrict
pub mod Untouched
pub mod Names
use zpinit.Base.{
  String, Bool, true, false, not, ◌||◌, Option, none, some, List, [], ◌∷◌, ◌++◌, if◌then◌else◌,
}
use zpinit.Base.Texts.{str_eq, text_ltb, contains}
use zpinit.Config.Types.{Service, Config, is_nonempty}
use zpinit.Supervisor.Runner.State.{Runner}
use zpinit.Supervisor.Diff.{Orchestrator, RestartPair, ReloadDiff, file_of, compute_diff}
use zpinit.Supervisor.Reload.{Applied, apply_reload_diff, resolve}

abbrev pub or_later : Option String → Option String → Option String
or_later none here = here
or_later (some later) here = some later

abbrev pub file_if : Bool → String → Option String
file_if true fn = some fn
file_if false fn = none

abbrev is_seen : String → List String → Bool
is_seen fn [] = false
is_seen fn (g ∷ rest) = str_eq g fn || is_seen fn rest

-- runFiles[n]: of each file the name of its first runner counts, and a later file replaces an earlier
unfoldable pub run_file : String → List String → List Runner → Option String
run_file n seen [] = none
run_file n seen (r ∷ rest) =
    or_later (run_file n (r.spec.filename ∷ seen) rest) (
      file_if (if is_seen r.spec.filename seen then false else str_eq r.spec.name n)
        r.spec.filename)

-- diskFiles[n]
unfoldable pub disk_file : String → List Service → Option String
disk_file n [] = none
disk_file n (s ∷ rest) = or_later (disk_file n rest) (file_if (str_eq s.name n) s.filename)

abbrev pub opt_list : Option String → List String
opt_list none = []
opt_list (some fn) = fn ∷ []

pub data ScopeError : Type 0 where
  shutting_down : ScopeError
  names_replica : String → ScopeError
  unknown_services : List String → ScopeError

pub data Scope : Type 0 where
  wants : List String → List String → Scope
  stops : ScopeError → Scope

-- one name, in front of what the later ones want
unfoldable pub scope_name : String → List String → Scope → Scope
scope_name n files (stops e) = stops e
scope_name n [] (wants files unknown) = wants files (n ∷ unknown)
scope_name n (fn ∷ more) (wants files unknown) = wants (fn ∷ more ++ files) unknown

-- the loop over the names: the files that are wanted, and the names that nothing has
unfoldable pub scope_names : List String → List Service → List Runner → Scope
unfolding scope_name run_file disk_file
scope_names [] services runners = wants [] []
scope_names (n ∷ names) services runners =
    let rest = scope_names names services runners in
    if contains "/" n
    then stops (names_replica n)
    else scope_name n (opt_list (disk_file n services) ++ opt_list (run_file n [] runners)) rest

unfoldable pub is_wanted : String → List String → Bool
is_wanted fn [] = false
is_wanted fn (g ∷ rest) = str_eq g fn || is_wanted fn rest

unfoldable pub wanted_removes : List String → List Runner → List Runner
wanted_removes want [] = []
wanted_removes want (r ∷ rest) =
    let more = wanted_removes want rest in if is_wanted (file_of r) want then r ∷ more else more

unfoldable pub wanted_restarts : List String → List RestartPair → List RestartPair
wanted_restarts want [] = []
wanted_restarts want (p ∷ rest) =
    let more = wanted_restarts want rest in if is_wanted p.new.filename want then p ∷ more else more

unfoldable pub wanted_adds : List String → List Service → List Service
wanted_adds want [] = []
wanted_adds want (s ∷ rest) =
    let more = wanted_adds want rest in if is_wanted s.filename want then s ∷ more else more

-- the scoped diff: its conflicts are those of an empty diff
unfoldable pub restrict : List String → ReloadDiff → ReloadDiff
unfolding wanted_removes wanted_restarts wanted_adds
restrict want d = record {
  add = wanted_adds want d.add;
  remove = wanted_removes want d.remove;
  restart = wanted_restarts want d.restart;
  conflicts = [];
}

-- svcByFile in the order of its keys: a service takes the place of another of its file
unfoldable pub put_service : Service → List Service → List Service
put_service s [] = s ∷ []
put_service s (t ∷ rest) =
    let later = put_service s rest in
    if str_eq s.filename t.filename
    then s ∷ rest
    else if text_ltb s.filename t.filename
    then s ∷ t ∷ rest
    else t ∷ later

unfoldable pub put_services : List Service → List Service → List Service
unfolding put_service
put_services [] m = m
put_services (s ∷ rest) m = put_services rest (put_service s m)

unfoldable pub delete_service : String → List Service → List Service
delete_service fn [] = []
delete_service fn (s ∷ rest) =
    let more = delete_service fn rest in if str_eq s.filename fn then more else s ∷ more

unfoldable pub delete_services : List Runner → List Service → List Service
unfolding delete_service
delete_services [] m = m
delete_services (r ∷ rest) m = delete_services rest (delete_service (file_of r) m)

unfoldable pub new_specs : List RestartPair → List Service
new_specs [] = []
new_specs (p ∷ rest) = p.new ∷ new_specs rest

unfoldable pub merged_services : ReloadDiff → List Service → List Service
unfolding put_services delete_services new_specs
merged_services d services =
    put_services d.add
      (put_services (new_specs d.restart) (delete_services d.remove (put_services services [])))

abbrev pub probe : Config → Orchestrator → Config
probe new o = record (resolve new o) { globals = o.cfg.globals }

pub data ScopedReload : Type 0 where
  refuses : ScopeError → ScopedReload
  applies : ReloadDiff → Applied → ScopedReload

abbrev finish :
    (Runner → Runner) → Bool → List String → Config → Orchestrator → Scope → ScopedReload
finish after stopped visits new o (stops e) = refuses e
finish after stopped visits new o (wants files (n ∷ unknown)) =
    refuses (unknown_services (n ∷ unknown))
finish after stopped visits new o (wants files []) =
    let d = restrict files (compute_diff visits o (probe new o)) in
    applies d (
      apply_reload_diff after stopped d
        (record o.cfg { services = merged_services d o.cfg.services }) o.base_env o)

unfoldable pub reload_scoped :
    (Runner → Runner) → Bool → List String → Config → List String → Orchestrator → ScopedReload
unfolding scope_names restrict merged_services
reload_scoped after stopped visits new names o =
    if o.stopping
    then refuses ScopeError.shutting_down
    else finish after stopped visits new o (scope_names names (resolve new o).services o.runners)
