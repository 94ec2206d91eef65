-- ===== src/Supervisor/Reload/Failures.antt =====
-- internal/supervisor/reload.go: stops that fail, and a shutdown that comes in between.
use mathlib.Core.List.{reverse, append_assoc}
use zpinit.Base.{
  String, ◌≡◌, refl, sym, ◌∙◌, ap, Bool, true, false, ◌||◌, Option, none, some, List, [], ◌∷◌, ◌++◌,
  map, arith,
}
use zpinit.Base.Texts.{str_eq-eq}
use zpinit.Config.Types.{Config}
use zpinit.Supervisor.Runner.State.{Runner, is_terminal, clear_removing}
use zpinit.Supervisor.Diff.{Orchestrator, RestartPair, ReloadDiff, file_of, group_by_filename}
use zpinit.Supervisor.Scale.{index_of}
use zpinit.Supervisor.Scale.Shrink.{IsStop}
use zpinit.Supervisor.Registry.{
  RegisterError, register_and_boot, insert_runner, sort_runners, remove_service_group, has_replica,
}
use zpinit.Supervisor.Reload.{
  ReloadError, name_taken, not_registered, remove_group, remove_groups, old_of, sort_restarts,
  restart_groups, sort_specs, boot_jobs, apply_reload_diff,
}
use zpinit.Supervisor.Reload.Removed.{has_replica-append}
use zpinit.Supervisor.Reload.Realised.{install_keeps}

has_replica-insert_runner :
    (r q : Runner) (l : List Runner) → has_replica r (insert_runner q l) ≡ has_replica r (q ∷ l)
unfolding has_replica insert_runner
has_replica-insert_runner r q [] = refl
has_replica-insert_runner r q (x ∷ l) = ground (arith, has_replica-insert_runner r q l)

has_replica-sort_runners :
    (r : Runner) (l : List Runner) → has_replica r (sort_runners l) ≡ has_replica r l
unfolding has_replica sort_runners
has_replica-sort_runners r [] = refl
has_replica-sort_runners r (q ∷ l) =
    ground (arith, has_replica-insert_runner r q (sort_runners l), has_replica-sort_runners r l)

has_replica-register :
    (r : Runner) (jobs : List Runner) (commit : Option (Config × List String)) (o : Orchestrator)
    → has_replica r o.runners ≡ true
    → has_replica r (register_and_boot jobs commit o).0.runners ≡ true
unfolding register_and_boot
has_replica-register r jobs none o h =
    ground
      (arith, has_replica-sort_runners r (o.runners ++ jobs), has_replica-append r o.runners jobs)
has_replica-register r jobs (some (c, e)) o h =
    ground
      (arith, has_replica-sort_runners r (o.runners ++ jobs), has_replica-append r o.runners jobs)

-- The stop of a replica does not end it.
abbrev pub Survives : (Runner → Runner) → Runner → Type 0
Survives after r =
    (q : Runner)
    → file_of q ≡ file_of r
    → index_of q ≡ index_of r
    → is_terminal (after q).state ≡ false

module _ (after : Runner → Runner) (stop : IsStop after) (r : Runner)
    (stuck : Survives after r) where
  survives-remove_service_group :
      (p : Runner → Bool) (l : List Runner)
      → has_replica r l ≡ true
      → has_replica r (remove_service_group p after l) ≡ true
  unfolding remove_service_group has_replica clear_removing
  survives-remove_service_group p [] h = cc
  survives-remove_service_group p (q ∷ l) h = ground (
    arith,
    survives-remove_service_group p l,
    stuck q,
    stop.same_file q,
    stop.same_index q,
    str_eq-eq (file_of q) (file_of r),
  )

  survives-remove_groups :
      (gs : List (List Runner)) (o : Orchestrator)
      → has_replica r o.runners ≡ true
      → has_replica r (remove_groups after gs o).0.runners ≡ true
  unfolding remove_groups
  survives-remove_groups [] o h = h
  survives-remove_groups (g ∷ gs) o h =
      survives-remove_groups gs (remove_group after g o).0
        (survives-remove_service_group (λ q. has_replica q g) o.runners h)

  survives-restart_groups :
      (ps : List RestartPair) (o : Orchestrator)
      → has_replica r o.runners ≡ true
      → has_replica r (restart_groups after ps o).0.runners ≡ true
  unfolding restart_groups remove_group
  survives-restart_groups [] o h = h
  survives-restart_groups (p ∷ ps) o h =
      survives-restart_groups ps (remove_group after (old_of p) o).0
        (survives-remove_service_group (λ q. has_replica q (old_of p)) o.runners h)

  -- A registered replica that its stop does not end stays registered through a reload, whatever the diff
  -- does to it, whether or not the shutdown begins meanwhile: no live child loses its runner.
  pub apply_reload_diff-keeps_alive :
      (stopped : Bool) (d : ReloadDiff) (commit : Config) (env : List String) (o : Orchestrator)
      → has_replica r o.runners ≡ true
      → has_replica r (apply_reload_diff after stopped d commit env o).after.runners ≡ true
  unfolding apply_reload_diff
  apply_reload_diff-keeps_alive stopped d commit env o h =
      let o1 = (remove_groups after (reverse (group_by_filename d.remove)) o).0 in
      let (o2, specs, errs) = restart_groups after (sort_restarts d.restart) o1 in
      let o2' = record o2 { stopping = o2.stopping || stopped } in
      let jobs = boot_jobs env (sort_specs (specs ++ d.add)) in
      let o3 = (register_and_boot jobs (some (commit, env)) o2').0 in
      ap (has_replica r) (install_keeps o3).0
      ∙ has_replica-register r jobs (some (commit, env)) o2' (
          survives-restart_groups (sort_restarts d.restart) o1
            (survives-remove_groups (reverse (group_by_filename d.remove)) o h))

module _ (after : Runner → Runner) where
  -- The removals change nothing but the runners.
  remove_groups-rest :
      (gs : List (List Runner)) (o : Orchestrator)
      → (remove_groups after gs o).0 ≡ record o { runners = (remove_groups after gs o).0.runners }
  unfolding remove_groups remove_group
  remove_groups-rest [] o = refl
  remove_groups-rest (g ∷ gs) o = remove_groups-rest gs (remove_group after g o).0

  restart_groups-rest :
      (ps : List RestartPair) (o : Orchestrator)
      → (restart_groups after ps o).0 ≡ record o { runners = (restart_groups after ps o).0.runners }
  unfolding restart_groups remove_group
  restart_groups-rest [] o = refl
  restart_groups-rest (p ∷ ps) o = restart_groups-rest ps (remove_group after (old_of p) o).0

module _ (after : Runner → Runner) (stop : IsStop after) (r : Runner) where
  was-remove_service_group :
      (p : Runner → Bool) (l : List Runner)
      → has_replica r (remove_service_group p after l) ≡ true
      → has_replica r l ≡ true
  unfolding remove_service_group has_replica clear_removing
  was-remove_service_group p [] h = cc
  was-remove_service_group p (q ∷ l) h =
      ground (arith, was-remove_service_group p l, stop.same_file q, stop.same_index q)

  was-remove_groups :
      (gs : List (List Runner)) (o : Orchestrator)
      → has_replica r (remove_groups after gs o).0.runners ≡ true
      → has_replica r o.runners ≡ true
  unfolding remove_groups remove_group
  was-remove_groups [] o h = h
  was-remove_groups (g ∷ gs) o h =
      was-remove_service_group (λ q. has_replica q g) o.runners
        (was-remove_groups gs (remove_group after g o).0 h)

  was-restart_groups :
      (ps : List RestartPair) (o : Orchestrator)
      → has_replica r (restart_groups after ps o).0.runners ≡ true
      → has_replica r o.runners ≡ true
  unfolding restart_groups remove_group
  was-restart_groups [] o h = h
  was-restart_groups (p ∷ ps) o h =
      was-remove_service_group (λ q. has_replica q (old_of p)) o.runners
        (was-restart_groups ps (remove_group after (old_of p) o).0 h)

register_late :
    (jobs : List Runner) (commit : Option (Config × List String)) (o : Orchestrator)
    → o.stopping ≡ true
    → register_and_boot jobs commit o ≡ (o, some RegisterError.shutting_down)
unfolding register_and_boot
register_late jobs commit o h = rw h

-- A reload that the shutdown overtakes registers no replica and commits neither the config nor the
-- environment: the last of its errors says so, and every replica registered afterwards was before.
pub apply_reload_diff_late :
    (after : Runner → Runner) (stop : IsStop after) (stopped : Bool) (d : ReloadDiff)
    (commit : Config) (env : List String) (o : Orchestrator)
    → o.stopping || stopped ≡ true
    → let a = apply_reload_diff after stopped d commit env o in
      (a.after.cfg ≡ o.cfg)
      × (a.after.base_env ≡ o.base_env)
      × ((errs : List ReloadError) × (a.errors
            ≡ errs ++ not_registered RegisterError.shutting_down ∷ []))
      × ((r : Runner) → has_replica r a.after.runners ≡ true → has_replica r o.runners ≡ true)
unfolding apply_reload_diff
apply_reload_diff_late after stop stopped d commit env o late =
    let gs = reverse (group_by_filename d.remove) in
    let (o1, errs) = remove_groups after gs o in
    let (o2, specs, more) = restart_groups after (sort_restarts d.restart) o1 in
    let o2' = record o2 { stopping = o2.stopping || stopped } in
    let jobs = boot_jobs env (sort_specs (specs ++ d.add)) in
    let rest1 = remove_groups-rest after gs o in
    let rest2 = restart_groups-rest after (sort_restarts d.restart) o1 in
    let same : o2.stopping ≡ o.stopping = cc (rest1, rest2) in
    let refused = register_late jobs (some (commit, env)) o2' (rw same late) in
    let (runners, cfg, base_env) = install_keeps o2' in
    let conflicts = map name_taken d.conflicts in
    rw refused (
      cfg ∙ cc (rest1, rest2),
      base_env ∙ cc (rest1, rest2),
      (conflicts ++ (errs ++ more), simp append_assoc),
      λ r h. was-remove_groups after stop r gs o (
          was-restart_groups after stop r (sort_restarts d.restart) o1
            (ap (has_replica r) (sym runners) ∙ h)),
    )
