-- ===== src/Supervisor/Reload/Refinement.antt =====
-- internal/supervisor/reload.go: Reload against what the new config asks for, file by file.
use zpinit.Base.{
  String, ◌≡◌, refl, sym, ap, ◌∙◌, Bool, true, false, not, Option, none, some, List, [], ◌∷◌, ◌++◌,
  arith,
}
use zpinit.Config.Types.{Service, Config}
use zpinit.Supervisor.Equal.{env_maps_equal}
use zpinit.Supervisor.Runner.State.{Runner, is_terminal}
use zpinit.Supervisor.Diff.{
  Orchestrator, ReloadDiff, runners_of, service_of, is_skipped, compute_diff, proposed,
}
use zpinit.Supervisor.Registry.{sort_runners}
use zpinit.Supervisor.Registry.Order.{runners_of-sort_runners}
use zpinit.Supervisor.Reload.{
  applied, Applied, EnvBuilder, build_env, resolve, boot_jobs, apply_reload_diff, reload,
}
use zpinit.Supervisor.Reload.Realised.{
  realised, kept, started, compute_diff-free, apply_reload_diff_ends, unsorted,
}
use zpinit.Supervisor.Reload.Jobs.{IsOrdered, sort_runners-fresh, sort_runners_ordered}

pub sort_runners-realised :
    (skipped env_changed : Bool) (env : List String) (rs : List Runner) (s : Option Service)
    → sort_runners rs ≡ rs
    → sort_runners (realised skipped env_changed env rs s) ≡ realised skipped env_changed env rs s
sort_runners-realised k e env rs none h =
    let empty : sort_runners [] ≡ [] = unfold sort_runners in refl in ground (arith, empty)
sort_runners-realised k e env [] (some s) h = sort_runners-fresh env s
sort_runners-realised k e env (r ∷ rs) (some s) h = ground (arith, sort_runners-fresh env s)

same_parts :
    (d p : ReloadDiff)
    → d.remove ≡ p.remove
    → d.restart ≡ p.restart
    → d.add ≡ p.add
    → (fn : String) (rs : List Runner) (env : List String)
    → runners_of fn (kept d rs ++ boot_jobs env (started d))
      ≡ runners_of fn (kept p rs ++ boot_jobs env (started p))
same_parts d p e f g fn rs env = rw (e, f, g)

-- A reload in an orchestrator that runs and is not stopping, of which every stop ends its runner and
-- whose diff has no conflict, is applied without an error, and refines its specification: each file
-- then runs nothing if the new config has no service for it (what it ran, if the file was skipped),
-- new replicas of that service if it ran nothing or if its spec or the global environment changed and
-- it may be restarted, and otherwise the very runners that it had.
pub reload_realised :
    (after : Runner → Runner)
    → ((r : Runner) → is_terminal (after r).state ≡ true)
    → (builder : EnvBuilder) (visits : List String) (new : Config) (o : Orchestrator)
    → o.stopping ≡ false
    → o.running ≡ true
    → IsOrdered o.runners
    → (compute_diff visits o (resolve new o)).conflicts ≡ []
    → (a : Applied) × (reload after false builder visits new o
        ≡ applied (compute_diff visits o (resolve new o)) a)
      × (a.errors ≡ [])
      × ((fn : String)
          → runners_of fn a.after.runners
            ≡ realised
                (is_skipped fn new.skipped_files)
                (not (env_maps_equal o.cfg.globals.env new.globals.env))
                (build_env builder new.globals.env o)
                (runners_of fn o.runners)
                (service_of fn (resolve new o).services))
unfolding reload
reload_realised after ends builder visits new o going ready ordered free =
    let new' = resolve new o in
    let d = compute_diff visits o new' in
    let env = build_env builder new.globals.env o in
    let a = apply_reload_diff after false d new' env o in
    let (same_remove, same_restart, same_add) = compute_diff-free visits o new' free in
    let (runners, errors, _, _) = apply_reload_diff_ends after ends d new' env o going ready in
    (
      a,
      rw going,
      errors ∙ rw free,
      λ fn.
          let old : sort_runners (runners_of fn o.runners) ≡ runners_of fn o.runners =
            sym (runners_of-sort_runners fn o.runners)
            ∙ ap (runners_of fn) (sort_runners_ordered o.runners ordered) in
          ap (runners_of fn) runners
          ∙ runners_of-sort_runners fn _
          ∙ ap sort_runners (
              same_parts d (proposed o new') same_remove same_restart same_add fn o.runners env
              ∙ unsorted fn o new' env)
          ∙ sort_runners-realised (is_skipped fn new.skipped_files) _ env (runners_of fn o.runners)
              (service_of fn new'.services) old,
    )
