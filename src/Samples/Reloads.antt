-- ===== src/Samples/Reloads.antt =====
-- A reload of three services, in which two swap into each other's names.
use mathlib.Core.List.{Memᴰ}
use zpinit.Base.{Bool-cases, inl, inr, ◌≡◌, ◌≢◌, refl, String, not, none, some, List, [], ◌∷◌}
use zpinit.Config.Types.{Service, Config}
use zpinit.Supervisor.Runner.State.{running, Runner}
use zpinit.Supervisor.Equal.{env_maps_equal}
use zpinit.Supervisor.Diff.{
  Orchestrator, RestartPair, runners_of, service_of, is_skipped, in_removed, in_restarted, is_in,
  proposed, compute_diff,
}
use zpinit.Supervisor.Diff.Choice.{
  in_added, should_remove, should_add, should_restart, proposed_choice,
}
use zpinit.Supervisor.Diff.Guard.{NamesKept, compute_diff_names, refused_restart_name_taken}
use zpinit.Base.Texts.{str_eq}
use zpinit.Supervisor.Diff.InSync.{IsInSync, compute_diff_in_sync}
use zpinit.Samples.Data.{service, runner, child, config, orchestrator}
use zpinit.Supervisor.Diff.{insert_file}
use zpinit.Base.Texts.{text_ltb}
use zpinit.Supervisor.Diff.{decide}
use zpinit.Supervisor.Equal.{services_equal}
use zpinit.Base.Texts.{eq_texts}
use zpinit.Supervisor.Equal.{eq_ready}
use zpinit.Supervisor.Diff.Choice.{mem_file}
use zpinit.Supervisor.Diff.{retained_file}

abbrev a : Runner
a = runner (service "a.toml" "alpha" "/bin/a") 0 running (some (child none))

abbrev b : Runner
b = runner (service "b.toml" "beta" "/bin/b") 0 running (some (child none))

abbrev before : Orchestrator
before = orchestrator (a.cfg ∷ b.cfg ∷ []) (a ∷ b ∷ [])

-- a.toml wants the name that b.toml keeps, and the new file c.toml the one that a.toml gives up
abbrev a_new : Service
a_new = service "a.toml" "beta" "/bin/a"

abbrev c_new : Service
c_new = service "c.toml" "alpha" "/bin/c"

abbrev after : Config
after = config (a_new ∷ b.cfg ∷ c_new ∷ [])

abbrev visits : List String
visits = "a.toml" ∷ "b.toml" ∷ []

abbrev a_pair : RestartPair
a_pair = record { first = a; others = []; new = a_new }

proposed_choice_example :
    let rs = runners_of "a.toml" before.runners in
    let s = service_of "a.toml" after.services in
    let env_changed = not (env_maps_equal before.cfg.globals.env after.globals.env) in
    (in_removed "a.toml" (proposed before after).remove
      ≡ should_remove rs s (is_skipped "a.toml" after.skipped_files))
    × (in_added "a.toml" (proposed before after).add ≡ should_add rs s)
    × (in_restarted "a.toml" (proposed before after).restart ≡ should_restart env_changed rs s)
proposed_choice_example = proposed_choice before after "a.toml"

a_is_restarted : (proposed before after).restart ≡ a_pair ∷ []
unfolding proposed env_maps_equal insert_file text_ltb decide runners_of service_of services_equal
    eq_texts eq_ready
a_is_restarted = refl

c_is_added : (proposed before after).add ≡ c_new ∷ []
unfolding proposed env_maps_equal insert_file text_ltb decide runners_of service_of services_equal
    eq_texts eq_ready
c_is_added = refl

a_pair-Memᴰ : Memᴰ a_pair (proposed before after).restart
a_pair-Memᴰ = rw a_is_restarted (Memᴰ.head refl)

c_new-Memᴰ : Memᴰ c_new (proposed before after).add
c_new-Memᴰ = rw c_is_added (Memᴰ.head refl)

compute_diff_names_example :
    ((s : Service) → Memᴰ s (compute_diff visits before after).add → s.name ≢ "beta")
    × ((p : RestartPair) → Memᴰ p (compute_diff visits before after).restart → p.new.name ≢ "beta")
unfolding mem_file runners_of is_in proposed env_maps_equal insert_file text_ltb decide service_of
    services_equal eq_texts eq_ready
compute_diff_names_example = compute_diff_names visits before after "b.toml" b [] refl refl refl

refused_restart_name_taken_example : ¬ NamesKept before.runners (compute_diff visits before after)
unfolding retained_file is_in proposed env_maps_equal insert_file text_ltb decide runners_of
    service_of services_equal eq_texts eq_ready
refused_restart_name_taken_example =
    refused_restart_name_taken visits before after a_pair c_new {other = "b.toml"} a_pair-Memᴰ
      c_new-Memᴰ refl refl refl

abbrev alone : Orchestrator
alone = orchestrator (a.cfg ∷ []) (a ∷ [])

abbrev same : Config
same = config (a.cfg ∷ [])

alone-IsInSync : IsInSync alone same
unfolding runners_of service_of env_maps_equal
alone-IsInSync = record {
  same_env = refl;
  same_services = λ fn. elim (Bool-cases (str_eq "a.toml" fn)) [
    | inl e ↦ inr (a, [], rw e refl, rw e refl, tt)
    | inr e ↦ inl (rw e refl, rw e refl)
  ];
}

compute_diff_in_sync_example :
    let d = compute_diff ("a.toml" ∷ []) alone same in
    (d.remove ≡ []) × (d.add ≡ []) × (d.restart ≡ [])
compute_diff_in_sync_example = compute_diff_in_sync ("a.toml" ∷ []) alone same alone-IsInSync
