-- ===== src/Supervisor/Reload/Realised.antt =====
-- internal/supervisor/reload.go: the runners that a reload leaves are those that the new config asks for.
use mathlib.Core.List.{append-nil}
use zpinit.Base.{
  String, ◌≡◌, refl, ap, ◌∙◌, Bool, true, false, not, ◌&&◌, ◌||◌, Option, none, some, List, [], ◌∷◌,
  ◌++◌, arith, if◌then◌else◌, map, length, ◌≤◌,
}
use zpinit.Config.Types.{Service, Config, is_reloadable}
use zpinit.Supervisor.Equal.{services_equal, env_maps_equal}
use zpinit.Supervisor.Runner.State.{Runner, is_terminal}
use zpinit.Supervisor.Diff.{
  Orchestrator, RestartPair, ReloadDiff, Conflict, runners_of, service_of, is_skipped, in_removed,
  in_restarted, keep_or_refuse, keep_adds, keep_restarts, guard_names, compute_diff, proposed,
}
use zpinit.Supervisor.Diff.Choice.{should_remove, should_restart, proposed_choice}
use zpinit.Supervisor.Registry.{register_and_boot, sort_runners, has_replica}
use zpinit.Supervisor.Reload.{
  ReloadError, fresh, boot_jobs, sort_specs, sort_restarts, install_exit_code_watcher,
  apply_reload_diff,
}
use zpinit.Supervisor.Reload.Removed.{
  without, olds, news, remove_all_ends, restart_all_ends, runners_of-without, without-ext,
  without-const,
}
use zpinit.Supervisor.Reload.Specs.{
  specs_of, specs_of-append, specs_of-sort_specs, news-sort_restarts,
}
use zpinit.Supervisor.Reload.Planned.{adds_for, restarts_for, proposed-adds, proposed-restarts}
use zpinit.Supervisor.Reload.Jobs.{runners_of-append, runners_of-boot_jobs}
use zpinit.Supervisor.Reload.Whole.{mem-runners_of, proposed-removed, proposed-restarted}

keep_adds-free :
    (visits : List String) (d : ReloadDiff) (rs : List Runner) (l : List Service)
    → (keep_adds visits d rs l).1 ≡ []
    → (keep_adds visits d rs l).0 ≡ l
unfolding keep_adds keep_or_refuse
keep_adds-free visits d rs [] h = refl
keep_adds-free visits d rs (s ∷ l) h = ground (arith, keep_adds-free visits d rs l)

keep_restarts-free :
    (visits : List String) (d : ReloadDiff) (rs : List Runner) (l : List RestartPair)
    → (keep_restarts visits d rs l).1 ≡ []
    → (keep_restarts visits d rs l).0 ≡ l
unfolding keep_restarts keep_or_refuse
keep_restarts-free visits d rs [] h = refl
keep_restarts-free visits d rs (p ∷ l) h = ground (arith, keep_restarts-free visits d rs l)

append-nils : (a b c : List Conflict) → a ++ (b ++ c) ≡ [] → (b ≡ []) × (c ≡ [])
append-nils [] [] c h = (refl, h)
append-nils [] (x ∷ b) c h = cc
append-nils (x ∷ a) b c h = cc

pub compute_diff-free :
    (visits : List String) (o : Orchestrator) (new : Config)
    → (compute_diff visits o new).conflicts ≡ []
    → let d = compute_diff visits o new in
      let p = proposed o new in (d.remove ≡ p.remove) × (d.restart ≡ p.restart) × (d.add ≡ p.add)
unfolding compute_diff guard_names
compute_diff-free visits o new h =
    let p = proposed o new in
    let none_refused = append-nils p.conflicts _ _ h in
    (
      refl,
      keep_restarts-free visits p o.runners p.restart none_refused.1,
      keep_adds-free visits p o.runners p.add none_refused.0,
    )

pub install_keeps :
    (o : Orchestrator)
    → ((install_exit_code_watcher o).runners ≡ o.runners)
      × ((install_exit_code_watcher o).cfg ≡ o.cfg)
      × ((install_exit_code_watcher o).base_env ≡ o.base_env)
unfolding install_exit_code_watcher
install_keeps o = ground arith

register_ok :
    (jobs : List Runner) (commit : Config) (env : List String) (o : Orchestrator)
    → o.stopping ≡ false
    → o.running ≡ true
    → register_and_boot jobs (some (commit, env)) o ≡ (
      record o { cfg = commit; base_env = env; runners = sort_runners (o.runners ++ jobs) },
      none,
    )
unfolding register_and_boot
register_ok jobs commit env o s r = rw (s, r)

-- what is left of the registry, and what is registered
abbrev pub kept : ReloadDiff → List Runner → List Runner
kept d rs = without (λ r. has_replica r (olds d.restart)) (without (λ r. has_replica r d.remove) rs)

abbrev left : ReloadDiff → Orchestrator → Orchestrator
left d o = record o { runners = kept d o.runners; stopping = o.stopping || false }

abbrev pub started : ReloadDiff → List Service
started d = sort_specs (news (sort_restarts d.restart) ++ d.add)

module _ (after : Runner → Runner) (ends : (r : Runner) → is_terminal (after r).state ≡ true) where
  pub apply_reload_diff_ends :
      (d : ReloadDiff) (commit : Config) (env : List String) (o : Orchestrator)
      → o.stopping ≡ false
      → o.running ≡ true
      → let a = apply_reload_diff after false d commit env o in
        (a.after.runners ≡ sort_runners (kept d o.runners ++ boot_jobs env (started d)))
        × (a.errors ≡ map ReloadError.name_taken d.conflicts ++ [])
        × (a.after.cfg ≡ commit)
        × (a.after.base_env ≡ env)
  unfolding apply_reload_diff
  apply_reload_diff_ends d commit env o s r = rw (remove_all_ends after ends d.remove o) (
      rw
        (restart_all_ends after ends d.restart
          (record o { runners = without (λ x. has_replica x d.remove) o.runners }))
        (rw (register_ok (boot_jobs env (started d)) commit env (left d o) (ground arith) r) (
          let committed = record (left d o) {
            cfg = commit;
            base_env = env;
            runners = sort_runners (kept d o.runners ++ boot_jobs env (started d));
          } in
          let (same, cfg, base_env) = install_keeps committed in (same, refl, cfg, base_env))))

-- What a file should run after a reload: nothing if the new config has no service for it, unless its
-- file was skipped; new replicas of that service if it did not run, or if its spec or the global
-- environment changed and it may be restarted; and otherwise what it runs.
abbrev pub realised : Bool → Bool → List String → List Runner → Option Service → List Runner
realised skipped env_changed env rs none = if skipped then rs else []
realised skipped env_changed env [] (some s) = fresh env s
realised skipped env_changed env (r ∷ rs) (some s) =
    if is_reloadable r.spec && (not (services_equal r.spec s) || env_changed)
    then fresh env s
    else r ∷ rs

pub at_most_one :
    (env_changed : Bool) (rs : List Runner) (wanted : Option Service)
    → length (restarts_for env_changed rs wanted ++ adds_for rs wanted) ≤ 1
at_most_one e rs none = omega arith
at_most_one e [] (some s) = omega arith
at_most_one e (r ∷ rs) (some s) = ground arith

pub few_restarts :
    (env_changed : Bool) (rs : List Runner) (wanted : Option Service)
    → length (restarts_for env_changed rs wanted) ≤ 1
few_restarts e rs none = omega arith
few_restarts e [] (some s) = omega arith
few_restarts e (r ∷ rs) (some s) = ground arith

pub started-lists :
    (fn : String) (d : ReloadDiff) (restarted added : List Service)
    → specs_of fn (news d.restart) ≡ restarted
    → specs_of fn d.add ≡ added
    → length restarted ≤ 1
    → length (restarted ++ added) ≤ 1
    → specs_of fn (started d) ≡ restarted ++ added
started-lists fn d restarted added er ea few one =
    let sorted = news-sort_restarts fn d.restart (rw er few) ∙ er in
    let both = specs_of-append fn (news (sort_restarts d.restart)) d.add in
    let whole : specs_of fn (news (sort_restarts d.restart) ++ d.add) ≡ restarted ++ added =
      cc (both, sorted, ea) in
    specs_of-sort_specs fn (news (sort_restarts d.restart) ++ d.add) (rw whole one) ∙ whole

without_both :
    (q : Runner → Bool) (l : List Runner) (a b : Bool)
    → without q l ≡ (if b then [] else l)
    → without q (if a then [] else l) ≡ (if a || b then [] else l)
unfolding without
without_both q l true b h = refl
without_both q l false b h = h

pub put_together :
    (skipped env_changed : Bool) (env : List String) (rs : List Runner) (s : Option Service)
    → (if should_remove rs s skipped || should_restart env_changed rs s then [] else rs)
        ++ boot_jobs env (restarts_for env_changed rs s ++ adds_for rs s)
      ≡ realised skipped env_changed env rs s
unfolding boot_jobs
put_together k e env [] none = ground arith
put_together k e env (r ∷ rs) none = ground (arith, append-nil rs)
put_together k e env [] (some s) = append-nil (fresh env s)
put_together k e env (r ∷ rs) (some s) = ground (arith, append-nil (fresh env s), append-nil rs)

module _ (fn : String) (o : Orchestrator) (new : Config) where
  abbrev here : List Runner
  here = runners_of fn o.runners

  abbrev wanted : Option Service
  wanted = service_of fn new.services

  abbrev changed : Bool
  changed = not (env_maps_equal o.cfg.globals.env new.globals.env)

  pub started-proposed :
      specs_of fn (started (proposed o new))
      ≡ restarts_for changed here wanted ++ adds_for here wanted
  started-proposed =
      started-lists fn (proposed o new) (restarts_for changed here wanted) (adds_for here wanted)
        (proposed-restarts fn o new) (proposed-adds fn o new) (few_restarts changed here wanted)
        (at_most_one changed here wanted)

  pub kept-proposed : runners_of fn (kept (proposed o new) o.runners) ≡ (
      if in_removed fn (proposed o new).remove || in_restarted fn (proposed o new).restart
      then []
      else here)
  kept-proposed =
      let d = proposed o new in
      let p = λ (r : Runner). has_replica r d.remove in
      let q = λ (r : Runner). has_replica r (olds d.restart) in
      let removed : without p here ≡ (if in_removed fn d.remove then [] else here) =
        without-ext p (λ r. in_removed fn d.remove) here
          (λ r m.
            let (file, there) = mem-runners_of r fn o.runners m in
            proposed-removed r o new there ∙ ap (λ f. in_removed f d.remove) file)
        ∙ without-const (in_removed fn d.remove) here in
      let restarted : without q here ≡ (if in_restarted fn d.restart then [] else here) =
        without-ext q (λ r. in_restarted fn d.restart) here
          (λ r m.
            let (file, there) = mem-runners_of r fn o.runners m in
            proposed-restarted r o new there ∙ ap (λ f. in_restarted f d.restart) file)
        ∙ without-const (in_restarted fn d.restart) here in
      runners_of-without fn q (without p o.runners)
      ∙ ap (without q) (runners_of-without fn p o.runners ∙ removed)
      ∙ without_both q here (in_removed fn d.remove) (in_restarted fn d.restart) restarted

  -- what the file runs after the diff is applied, before the runners are sorted
  pub unsorted :
      (env : List String)
      → runners_of fn (kept (proposed o new) o.runners ++ boot_jobs env (started (proposed o new)))
        ≡ realised (is_skipped fn new.skipped_files) changed env here wanted
  unsorted env =
      let d = proposed o new in
      let choice = proposed_choice o new fn in
      runners_of-append fn (kept d o.runners) (boot_jobs env (started d))
      ∙ cc (
        kept-proposed,
        runners_of-boot_jobs fn env (started d),
        started-proposed,
        choice.0,
        choice.2,
      )
      ∙ put_together (is_skipped fn new.skipped_files) changed env here wanted
