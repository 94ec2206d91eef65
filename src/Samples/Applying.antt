-- ===== src/Samples/Applying.antt =====
-- Reloads and scoped updates of two services, applied.
use mathlib.Core.List.{Memᴰ}
use zpinit.Base.{
  ◌≢◌, String, ◌≡◌, refl, not, true, false, none, some, List, [], ◌∷◌, ◌++◌, if◌then◌else◌,
}
use zpinit.Config.Types.{Config}
use zpinit.Supervisor.Equal.{env_maps_equal}
use zpinit.Supervisor.Runner.State.{running, stopped, Runner}
use zpinit.Supervisor.Diff.{
  Orchestrator, RestartPair, runners_of, service_of, is_skipped, compute_diff,
}
use zpinit.Supervisor.Registry.{has_replica, shutting_down}
use zpinit.Supervisor.Scale.Shrink.{IsStop}
use zpinit.Supervisor.Reload.{
  Applied, applied, EnvBuilder, build_env, resolve, reload, apply_reload_diff, ReloadError,
  not_registered,
}
use zpinit.Supervisor.Reload.Realised.{realised}
use zpinit.Supervisor.Reload.Refinement.{reload_realised}
use zpinit.Supervisor.Reload.Failures.{apply_reload_diff-keeps_alive, apply_reload_diff_late}
use zpinit.Supervisor.Scoped.{
  scope_names, wants, is_wanted, restrict, applies, probe, reload_scoped,
}
use zpinit.Supervisor.Scoped.Untouched.{reload_scoped_touches}
use zpinit.Supervisor.Scoped.Names.{FirstHasName, scoped_name_taken}
use zpinit.Supervisor.Reload.Jobs.{IsOrdered}
use zpinit.Samples.Data.{service, runner, child, config, orchestrator}
use zpinit.Supervisor.Diff.{keep_restarts}
use zpinit.Supervisor.Diff.{insert_file}
use zpinit.Supervisor.Replica.{resolve_auto_replicas_at_boot}
use zpinit.Base.Texts.{text_ltb}
use zpinit.Supervisor.Diff.{decide}
use zpinit.Supervisor.Equal.{services_equal}
use zpinit.Supervisor.Diff.{keep_or_refuse}
use zpinit.Supervisor.Diff.{retained_file}
use zpinit.Supervisor.Diff.{is_in}
use zpinit.Supervisor.Registry.{runner_ltb}
use zpinit.Base.Texts.{eq_texts}
use zpinit.Supervisor.Diff.{keep_adds}
use zpinit.Base.Texts.{contains}

abbrev a : Runner
a = runner (service "a.toml" "alpha" "/bin/a") 0 running (some (child none))

abbrev b : Runner
b = runner (service "b.toml" "beta" "/bin/b") 0 running (some (child none))

abbrev before : Orchestrator
before = orchestrator (a.cfg ∷ b.cfg ∷ []) (a ∷ b ∷ [])

-- b.toml is gone, c.toml is new, and a.toml has another command
abbrev after : Config
after = config (service "a.toml" "alpha" "/bin/new" ∷ service "c.toml" "gamma" "/bin/c" ∷ [])

abbrev visits : List String
visits = "a.toml" ∷ "b.toml" ∷ []

abbrev builder : EnvBuilder
builder = some (λ globals resources. "B=2" ∷ [])

abbrev ended : Runner → Runner
ended r = record r { state = stopped; process = none }

before-IsOrdered : IsOrdered before.runners
unfolding runner_ltb
before-IsOrdered = ((refl, tt), (tt, tt))

reload_realised_example :
    (x : Applied) × (reload ended false builder visits after before
      ≡ applied (compute_diff visits before (resolve after before)) x)
    × (x.errors ≡ [])
    × ((fn : String)
        → runners_of fn x.after.runners
          ≡ realised
              (is_skipped fn after.skipped_files)
              (not (env_maps_equal before.cfg.globals.env after.globals.env))
              (build_env builder after.globals.env before)
              (runners_of fn before.runners)
              (service_of fn (resolve after before).services))
unfolding compute_diff env_maps_equal insert_file resolve_auto_replicas_at_boot text_ltb decide
    runners_of service_of services_equal eq_texts is_skipped keep_adds keep_or_refuse retained_file
    is_in keep_restarts
reload_realised_example =
    reload_realised ended (λ r. refl) builder visits after before refl refl before-IsOrdered refl

scope :
    scope_names ("alpha" ∷ "gamma" ∷ []) (resolve after before).services before.runners
    ≡ wants ("a.toml" ∷ "a.toml" ∷ "c.toml" ∷ []) []
unfolding scope_names contains resolve_auto_replicas_at_boot
scope = refl

no_conflicts : (compute_diff visits before (probe after before)).conflicts ≡ []
unfolding compute_diff env_maps_equal insert_file resolve_auto_replicas_at_boot text_ltb decide
    runners_of service_of services_equal eq_texts is_skipped keep_adds keep_or_refuse retained_file
    is_in keep_restarts
no_conflicts = refl

reload_scoped_touches_example :
    (x : Applied) × (reload_scoped ended false visits after ("alpha" ∷ "gamma" ∷ []) before
      ≡ applies
          (restrict
            ("a.toml" ∷ "a.toml" ∷ "c.toml" ∷ [])
            (compute_diff visits before (probe after before)))
          x)
    × (x.errors ≡ [])
    × (x.after.cfg.globals ≡ before.cfg.globals)
    × (x.after.base_env ≡ before.base_env)
    × ((fn : String)
        → runners_of fn x.after.runners ≡ (
            if is_wanted fn ("a.toml" ∷ "a.toml" ∷ "c.toml" ∷ [])
            then realised
                (is_skipped fn after.skipped_files)
                false
                before.base_env
                (runners_of fn before.runners)
                (service_of fn (resolve after before).services)
            else runners_of fn before.runners))
reload_scoped_touches_example =
    reload_scoped_touches ended (λ r. refl) visits after ("alpha" ∷ "gamma" ∷ [])
      ("a.toml" ∷ "a.toml" ∷ "c.toml" ∷ []) before refl refl before-IsOrdered tt scope no_conflicts

-- a.toml gives its name up to b.toml, but only b.toml is updated
abbrev handover : Config
handover = config (service "a.toml" "gamma" "/bin/a" ∷ service "b.toml" "alpha" "/bin/b" ∷ [])

abbrev b_pair : RestartPair
b_pair = record { first = b; others = []; new = service "b.toml" "alpha" "/bin/b" }

handover_restarts :
    (compute_diff visits before (probe handover before)).restart
    ≡ record { first = a; others = []; new = service "a.toml" "gamma" "/bin/a" } ∷ b_pair ∷ []
unfolding compute_diff keep_restarts env_maps_equal insert_file resolve_auto_replicas_at_boot
    text_ltb decide runners_of service_of services_equal keep_or_refuse retained_file is_in
handover_restarts = refl

handover_free : (compute_diff visits before (probe handover before)).conflicts ≡ []
unfolding compute_diff env_maps_equal insert_file resolve_auto_replicas_at_boot text_ltb decide
    runners_of service_of services_equal keep_adds keep_restarts keep_or_refuse retained_file is_in
handover_free = refl

handover_scope :
    scope_names ("beta" ∷ []) (resolve handover before).services before.runners
    ≡ wants ("b.toml" ∷ []) []
unfolding scope_names contains resolve_auto_replicas_at_boot
handover_scope = refl

b_pair-restarts : Memᴰ b_pair (compute_diff visits before (probe handover before)).restart
b_pair-restarts = rw handover_restarts (Memᴰ.tail (Memᴰ.head refl))

b_wanted : is_wanted "b.toml" ("b.toml" ∷ []) ≡ true
unfolding is_wanted
b_wanted = refl

a_unwanted : is_wanted "a.toml" ("b.toml" ∷ []) ≡ false
unfolding is_wanted
a_unwanted = refl

a_runs : runners_of "a.toml" before.runners ≡ a ∷ []
unfolding runners_of
a_runs = refl

scoped_name_taken_example :
    (x : Applied) × (reload_scoped ended false visits handover ("beta" ∷ []) before
      ≡ applies (restrict ("b.toml" ∷ []) (compute_diff visits before (probe handover before))) x)
    × (x.errors ≡ [])
    × (◌≢◌ {A = String} "a.toml" "b.toml")
    × (runners_of "a.toml" x.after.runners ≡ a ∷ [])
    × FirstHasName "alpha" (runners_of "b.toml" x.after.runners)
scoped_name_taken_example =
    scoped_name_taken ended (λ r. refl) visits handover ("beta" ∷ []) ("b.toml" ∷ []) before refl
      refl before-IsOrdered tt handover_scope handover_free b_pair "a.toml" a [] b_pair-restarts
      b_wanted a_runs a_unwanted refl

-- stops that end nothing
abbrev stuck : Runner → Runner
stuck r = record r { shutting_down = true; state = running }

stuck-IsStop : IsStop stuck
stuck-IsStop = record { same_file = λ r. refl; same_index = λ r. refl }

apply_reload_diff-keeps_alive_example :
    has_replica a
      (apply_reload_diff stuck false
        (compute_diff visits before after)
        after
        ("B=2" ∷ [])
        before).after.runners
    ≡ true
unfolding has_replica
apply_reload_diff-keeps_alive_example =
    apply_reload_diff-keeps_alive stuck stuck-IsStop a (λ q e f. refl) false
      (compute_diff visits before after) after ("B=2" ∷ []) before refl

apply_reload_diff_late_example :
    let x =
      apply_reload_diff stuck true (compute_diff visits before after) after ("B=2" ∷ []) before in
    (x.after.cfg ≡ before.cfg)
    × (x.after.base_env ≡ before.base_env)
    × ((errs : List ReloadError) × (x.errors ≡ errs ++ not_registered shutting_down ∷ []))
    × ((r : Runner) → has_replica r x.after.runners ≡ true → has_replica r before.runners ≡ true)
apply_reload_diff_late_example =
    apply_reload_diff_late stuck stuck-IsStop true (compute_diff visits before after) after
      ("B=2" ∷ []) before refl
