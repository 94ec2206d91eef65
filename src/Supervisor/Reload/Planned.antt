-- ===== src/Supervisor/Reload/Planned.antt =====
-- internal/supervisor/diff.go: the one service that the diff starts for a file, if it starts one.
use mathlib.Core.Path.{subst}
use zpinit.Base.{
  String, ◌≡◌, refl, Bool, false, not, ◌&&◌, ◌||◌, Option, none, some, List, [], ◌∷◌, ◌++◌, arith,
  if◌then◌else◌,
}
use zpinit.Base.Texts.{str_eq, str_eq-eq, str_eq_self}
use zpinit.Config.Types.{Service, FileError, Config, is_reloadable}
use zpinit.Supervisor.Runner.State.{Runner}
use zpinit.Supervisor.Equal.{services_equal, env_maps_equal}
use zpinit.Supervisor.Diff.{
  Orchestrator, ReloadDiff, runners_of, service_of, ordered_files, decide, prepend, walk_files,
  is_in, env_restart, env_restarts, propagate_env, proposed,
}
use zpinit.Supervisor.Diff.Choice.{
  mem_file, IsNamed, service_of-IsNamed, remove_formula, restart_formula, mem_file-ordered_files,
}
use zpinit.Supervisor.Reload.Removed.{news}
use zpinit.Supervisor.Reload.Specs.{
  specs_of, specs_of-append, news-append, IsAscending, ordered_files-IsAscending, mem_file-above,
}

-- the service that is added for a file
abbrev pub adds_for : List Runner → Option Service → List Service
adds_for rs none = []
adds_for [] (some s) = s ∷ []
adds_for (r ∷ rs) (some s) = []

-- the service that a file is restarted with, for its spec or for the environment
abbrev pub restarts_for : Bool → List Runner → Option Service → List Service
restarts_for env_changed rs none = []
restarts_for env_changed [] (some s) = []
restarts_for env_changed (r ∷ rs) (some s) =
    if is_reloadable r.spec && (not (services_equal r.spec s) || env_changed) then s ∷ [] else []

abbrev env_for : Bool → List Runner → Option Service → List Service
env_for touched rs none = []
env_for touched [] (some s) = []
env_for touched (r ∷ rs) (some s) = if not touched && is_reloadable r.spec then s ∷ [] else []

module _ (fn g : String) where
  add-decide :
      (rs : List Runner) (o : Option Service) (skipped : List FileError) (d : ReloadDiff)
      → IsNamed g o
      → specs_of fn (prepend (decide g rs o skipped) d).add
        ≡ (if str_eq g fn then adds_for rs o else []) ++ specs_of fn d.add
  unfolding decide specs_of prepend
  add-decide [] none skipped d h = ground arith
  add-decide [] (some s) skipped d h =
      subst
        (λ (x : String).
          specs_of fn (s ∷ d.add) ≡ (if str_eq x fn then s ∷ [] else []) ++ specs_of fn d.add)
        h (ground arith)
  add-decide (r ∷ rs) none skipped d h = ground arith
  add-decide (r ∷ rs) (some s) skipped d h = ground arith

  restart-decide :
      (rs : List Runner) (o : Option Service) (skipped : List FileError) (d : ReloadDiff)
      → IsNamed g o
      → specs_of fn (news (prepend (decide g rs o skipped) d).restart)
        ≡ (if str_eq g fn then restarts_for false rs o else []) ++ specs_of fn (news d.restart)
  unfolding decide specs_of prepend news
  restart-decide [] none skipped d h = ground arith
  restart-decide [] (some s) skipped d h = ground arith
  restart-decide (r ∷ rs) none skipped d h = ground arith
  restart-decide (r ∷ rs) (some s) skipped d h = rw h (ground arith)

  news-env_restart :
      (touched : Bool) (rs : List Runner) (o : Option Service)
      → IsNamed g o
      → specs_of fn (news (env_restart touched rs o))
        ≡ (if str_eq g fn then env_for touched rs o else [])
  unfolding env_restart specs_of news
  news-env_restart touched [] none h = ground arith
  news-env_restart touched [] (some s) h = ground arith
  news-env_restart touched (r ∷ rs) none h = ground arith
  news-env_restart touched (r ∷ rs) (some s) h = rw h (ground arith)

module _ (fn : String) (runners : List Runner) (new : Config) where
  abbrev rs : List Runner
  rs = runners_of fn runners

  abbrev wanted : Option Service
  wanted = service_of fn new.services

  walk-adds :
      (files : List String)
      → IsAscending files
      → specs_of fn (walk_files files runners new).add
        ≡ (if mem_file fn files then adds_for rs wanted else [])
  unfolding walk_files mem_file
  walk-adds [] up = unfold specs_of in refl
  walk-adds (g ∷ files) up = ground (
    arith,
    walk-adds files up.1,
    add-decide fn g (runners_of g runners) (service_of g new.services) new.skipped_files
        (walk_files files runners new) (service_of-IsNamed g new.services),
    mem_file-above g files up.0,
    str_eq-eq g fn,
    str_eq_self fn,
  )

  walk-restarts :
      (files : List String)
      → IsAscending files
      → specs_of fn (news (walk_files files runners new).restart)
        ≡ (if mem_file fn files then restarts_for false rs wanted else [])
  unfolding walk_files mem_file
  walk-restarts [] up = unfold specs_of news in refl
  walk-restarts (g ∷ files) up = ground (
    arith,
    walk-restarts files up.1,
    restart-decide fn g (runners_of g runners) (service_of g new.services) new.skipped_files
        (walk_files files runners new) (service_of-IsNamed g new.services),
    mem_file-above g files up.0,
    str_eq-eq g fn,
    str_eq_self fn,
  )

  env-restarts :
      (d : ReloadDiff) (files : List String)
      → IsAscending files
      → specs_of fn (news (env_restarts files d runners new))
        ≡ (if mem_file fn files then env_for (is_in fn d) rs wanted else [])
  unfolding env_restarts mem_file
  env-restarts d [] up = unfold specs_of news in refl
  env-restarts d (g ∷ files) up =
      let more = env_restarts files d runners new in
      let one = env_restart (is_in g d) (runners_of g runners) (service_of g new.services) in
      ground (
        arith,
        env-restarts d files up.1,
        news-env_restart fn g (is_in g d) (runners_of g runners) (service_of g new.services)
            (service_of-IsNamed g new.services),
        mem_file-above g files up.0,
        str_eq-eq g fn,
        str_eq_self fn,
        news-append one more,
        specs_of-append fn (news one) (news more),
      )

module _ (fn : String) (o : Orchestrator) (new : Config) where
  abbrev env_changed : Bool
  env_changed = not (env_maps_equal o.cfg.globals.env new.globals.env)

  pub proposed-adds :
      specs_of fn (proposed o new).add
      ≡ adds_for (runners_of fn o.runners) (service_of fn new.services)
  unfolding proposed propagate_env
  proposed-adds =
      let files = ordered_files o.runners new.services in
      ground (
        arith,
        walk-adds fn o.runners new files (ordered_files-IsAscending o.runners new.services),
        mem_file-ordered_files fn o.runners new.services,
      )

  pub proposed-restarts :
      specs_of fn (news (proposed o new).restart)
      ≡ restarts_for
          (not (env_maps_equal o.cfg.globals.env new.globals.env))
          (runners_of fn o.runners)
          (service_of fn new.services)
  unfolding proposed propagate_env is_in
  proposed-restarts =
      let files = ordered_files o.runners new.services in
      let d = walk_files files o.runners new in
      let more = env_restarts files d o.runners new in
      let up = ordered_files-IsAscending o.runners new.services in
      ground (
        arith,
        walk-restarts fn o.runners new files up,
        env-restarts fn o.runners new d files up,
        news-append d.restart more,
        specs_of-append fn (news d.restart) (news more),
        remove_formula o.runners new fn files,
        restart_formula o.runners new fn files,
        mem_file-ordered_files fn o.runners new.services,
      )
