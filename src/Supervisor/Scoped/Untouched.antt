-- ===== src/Supervisor/Scoped/Untouched.antt =====
-- internal/supervisor/reload.go: a scoped update touches the named services and no others.
use zpinit.Base.{
  String, ◌≡◌, refl, sym, ap, ◌∙◌, Bool, true, false, not, ◌&&◌, ◌||◌, List, [], ◌++◌, arith,
  Bool-cases, inl, inr, if◌then◌else◌,
}
use mathlib.Core.List.{append-nil}
use zpinit.Config.Types.{Config}
use zpinit.Supervisor.Equal.{env_maps_equal}
use zpinit.Supervisor.Runner.State.{Runner, is_terminal}
use zpinit.Supervisor.Diff.{
  Orchestrator, ReloadDiff, file_of, runners_of, service_of, is_skipped, compute_diff, proposed,
}
use zpinit.Supervisor.Diff.Pairs.{proposed-All}
use zpinit.Supervisor.Diff.InSync.{AreDistinct, env_maps_equal_self}
use zpinit.Supervisor.Registry.{sort_runners, has_replica}
use zpinit.Supervisor.Registry.Order.{runners_of-sort_runners}
use zpinit.Supervisor.Reload.{Applied, resolve, boot_jobs, apply_reload_diff}
use zpinit.Supervisor.Reload.Removed.{
  without, without-without, olds, runners_of-without, without-ext, without-const,
}
use zpinit.Supervisor.Reload.Specs.{specs_of}
use zpinit.Supervisor.Reload.Planned.{adds_for, restarts_for, proposed-adds, proposed-restarts}
use zpinit.Supervisor.Reload.Jobs.{
  IsOrdered, runners_of-append, runners_of-boot_jobs, sort_runners_ordered,
}
use zpinit.Supervisor.Reload.Whole.{mem-runners_of}
use zpinit.Supervisor.Reload.Realised.{
  realised, kept, started, compute_diff-free, apply_reload_diff_ends, started-lists, at_most_one,
  few_restarts, started-proposed, unsorted,
}
use zpinit.Supervisor.Reload.Refinement.{sort_runners-realised}
use zpinit.Supervisor.Scoped.{
  is_wanted, restrict, wants, scope_names, merged_services, probe, applies, reload_scoped,
}
use zpinit.Supervisor.Scoped.Restrict.{
  specs_of-wanted_adds, news-wanted_restarts, has_replica-wanted_removes,
  has_replica-wanted_restarts,
}

module _ (fn : String) (w : List String) (o : Orchestrator) (new : Config) where
  abbrev here : List Runner
  here = runners_of fn o.runners

  abbrev gone : ReloadDiff → Runner → Bool
  gone d r = has_replica r d.remove || has_replica r (olds d.restart)

  runners_of-kept : (d : ReloadDiff) → runners_of fn (kept d o.runners) ≡ without (gone d) here
  runners_of-kept d =
      ap (runners_of fn) (without-without (λ r. has_replica r d.remove) _ o.runners)
      ∙ runners_of-without fn (gone d) o.runners

  gone-restrict :
      (r : Runner)
      → file_of r ≡ fn
      → has_replica r o.runners ≡ true
      → gone (restrict w (proposed o new)) r ≡ is_wanted fn w && gone (proposed o new) r
  unfolding restrict
  gone-restrict r file there =
      let d = proposed o new in
      let all = proposed-All o new in
      let same : is_wanted (file_of r) w ≡ is_wanted fn w = ap (λ f. is_wanted f w) file in
      ground (
        arith,
        same,
        has_replica-wanted_removes r w d.remove,
        has_replica-wanted_restarts r w o.runners new.services d.restart there all,
      )

  kept-restrict :
      runners_of fn (kept (restrict w (proposed o new)) o.runners)
      ≡ (if is_wanted fn w then runners_of fn (kept (proposed o new) o.runners) else here)
  kept-restrict =
      let d = proposed o new in
      runners_of-kept (restrict w d)
      ∙ without-ext (gone (restrict w d)) (λ r. is_wanted fn w && gone d r) here
          (λ r m. let (file, there) = mem-runners_of r fn o.runners m in gone-restrict r file there)
      ∙ (elim (Bool-cases (is_wanted fn w)) [
        | inl e ↦ rw e (sym (runners_of-kept d))
        | inr e ↦ rw e (without-const false here)
      ])

  started-restrict :
      specs_of fn (started (restrict w (proposed o new)))
      ≡ (if is_wanted fn w then specs_of fn (started (proposed o new)) else [])
  unfolding restrict
  started-restrict =
      let d = proposed o new in
      let a =
        restarts_for (not (env_maps_equal o.cfg.globals.env new.globals.env)) here
          (service_of fn new.services) in
      let b = adds_for here (service_of fn new.services) in
      elim (Bool-cases (is_wanted fn w)) [
        | inl e ↦ rw e (
            started-lists fn (restrict w d) a b
              (news-wanted_restarts fn w d.restart ∙ rw e (proposed-restarts fn o new))
              (specs_of-wanted_adds fn w d.add ∙ rw e (proposed-adds fn o new))
              (few_restarts _ here _) (at_most_one _ here _)
            ∙ sym (started-proposed fn o new))
        | inr e ↦ rw e (
            started-lists fn (restrict w d) [] [] (news-wanted_restarts fn w d.restart ∙ rw e refl)
              (specs_of-wanted_adds fn w d.add ∙ rw e refl) (omega arith) (omega arith))
      ]

  -- what the file runs after the scoped diff is applied, before the runners are sorted
  unsorted-restrict :
      (env : List String)
      → runners_of fn (
          kept (restrict w (proposed o new)) o.runners
          ++ boot_jobs env (started (restrict w (proposed o new))))
        ≡ (if is_wanted fn w
            then runners_of fn
                (kept (proposed o new) o.runners ++ boot_jobs env (started (proposed o new)))
            else here)
  unfolding boot_jobs
  unsorted-restrict env =
      let d = proposed o new in
      let d' = restrict w d in
      ground (
        arith,
        runners_of-append fn (kept d' o.runners) (boot_jobs env (started d')),
        runners_of-append fn (kept d o.runners) (boot_jobs env (started d)),
        runners_of-boot_jobs fn env (started d'),
        runners_of-boot_jobs fn env (started d),
        kept-restrict,
        started-restrict,
        append-nil here,
      )

scoped_parts :
    (w : List String) (d p : ReloadDiff)
    → d.remove ≡ p.remove
    → d.restart ≡ p.restart
    → d.add ≡ p.add
    → restrict w d ≡ restrict w p
unfolding restrict
scoped_parts w d p e f g = rw (e, f, g)

same_restriction :
    (w visits : List String) (o : Orchestrator) (new : Config)
    → (compute_diff visits o new).conflicts ≡ []
    → restrict w (compute_diff visits o new) ≡ restrict w (proposed o new)
same_restriction w visits o new free =
    let (remove, restart, add) = compute_diff-free visits o new free in
    scoped_parts w _ _ remove restart add

-- A scoped update in an orchestrator that runs and is not stopping, of names that all resolve, with
-- every stop ending its runner and no conflict in the diff, is applied without an error. A file that is
-- not wanted keeps its very runners; a wanted one runs what the new config asks for under the
-- unchanged environment. The committed config has the old globals, and the environment stays.
pub reload_scoped_touches :
    (after : Runner → Runner)
    → ((r : Runner) → is_terminal (after r).state ≡ true)
    → (visits : List String) (new : Config) (names files : List String) (o : Orchestrator)
    → o.stopping ≡ false
    → o.running ≡ true
    → IsOrdered o.runners
    → AreDistinct o.cfg.globals.env
    → scope_names names (resolve new o).services o.runners ≡ wants files []
    → (compute_diff visits o (probe new o)).conflicts ≡ []
    → (a : Applied) × (reload_scoped after false visits new names o
        ≡ applies (restrict files (compute_diff visits o (probe new o))) a)
      × (a.errors ≡ [])
      × (a.after.cfg.globals ≡ o.cfg.globals)
      × (a.after.base_env ≡ o.base_env)
      × ((fn : String)
          → runners_of fn a.after.runners ≡ (
              if is_wanted fn files
              then realised
                  (is_skipped fn new.skipped_files)
                  false
                  o.base_env
                  (runners_of fn o.runners)
                  (service_of fn (resolve new o).services)
              else runners_of fn o.runners))
unfolding reload_scoped
reload_scoped_touches after ends visits new names files o going ready ordered distinct scope free =
    let new' = probe new o in
    let d = restrict files (compute_diff visits o new') in
    let commit = record o.cfg { services = merged_services d o.cfg.services } in
    let a = apply_reload_diff after false d commit o.base_env o in
    let (runners, errors, cfg, base_env) =
      apply_reload_diff_ends after ends d commit o.base_env o going ready in
    (
      a,
      rw (going, scope),
      errors ∙ unfold restrict in refl,
      ap (λ (c : Config). c.globals) cfg,
      base_env,
      λ fn.
          let old : sort_runners (runners_of fn o.runners) ≡ runners_of fn o.runners =
            sym (runners_of-sort_runners fn o.runners)
            ∙ ap (runners_of fn) (sort_runners_ordered o.runners ordered) in
          let same = same_restriction files visits o new' free in
          let kept_env = env_maps_equal_self o.cfg.globals.env distinct in
          ap (runners_of fn) runners
          ∙ runners_of-sort_runners fn _
          ∙ ap
              (λ (x : ReloadDiff).
                sort_runners (runners_of fn (kept x o.runners ++ boot_jobs o.base_env (started x))))
              same
          ∙ ap sort_runners (unsorted-restrict fn files o new' o.base_env)
          ∙ (elim (Bool-cases (is_wanted fn files)) [
            | inl e ↦ rw e (
                let k = is_skipped fn new.skipped_files in
                let want = service_of fn (resolve new o).services in
                ap sort_runners (
                  unsorted fn o new' o.base_env
                  ∙ ap (λ b. realised k (not b) o.base_env (runners_of fn o.runners) want) kept_env)
                ∙ sort_runners-realised k false o.base_env (runners_of fn o.runners) want old)
            | inr e ↦ rw e old
          ]),
    )
