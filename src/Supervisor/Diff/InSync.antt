-- ===== src/Supervisor/Diff/InSync.antt =====
-- internal/supervisor/diff.go: a reload of an unchanged configuration changes nothing.
use zpinit.Base.{
  String, ◌≡◌, refl, ap, ◌∙◌, ◌⊎◌, inl, inr, Bool, true, false, not, ◌&&◌, Option, none, some, List,
  [], ◌∷◌, arith,
}
use zpinit.Base.Int.{ℤ, eq_ℤ}
use zpinit.Base.Texts.{str_eq-eq, str_eq_self, eq_texts}
use zpinit.Config.Types.{
  StringMap, Ready, Service, Config, or_default, crash_budget, wants_pdeathsig, is_reloadable,
}
use zpinit.Supervisor.Runner.State.{Runner}
use zpinit.Supervisor.Equal.{
  eq_bool, lookup, holds_all, env_maps_equal, eq_slice, eq_ready, services_equal,
}
use zpinit.Supervisor.Diff.{
  Orchestrator, RestartPair, file_of, runners_of, service_of, in_removed, in_restarted, proposed,
  keep_adds, keep_restarts, guard_names, compute_diff,
}
use zpinit.Supervisor.Diff.Choice.{
  in_added, should_remove, should_add, should_restart, proposed_choice,
}

-- the keys of a map differ
abbrev pub AreDistinct : StringMap → Type 0
AreDistinct [] = Unit
AreDistinct ((k, v) ∷ rest) = (lookup k rest ≡ none) × AreDistinct rest

-- a map of one more entry, under a key that the list does not have, still holds the list
holds_all-cons :
    (k v : String) (l b : StringMap) → lookup k l ≡ none → holds_all l ((k, v) ∷ b) ≡ holds_all l b
unfolding holds_all lookup
holds_all-cons k v [] b h = refl
holds_all-cons k v ((j, w) ∷ l) b h =
    ground (arith, h, holds_all-cons k v l b, str_eq-eq k j, str_eq_self j)

holds_all_self : (m : StringMap) → AreDistinct m → holds_all m m ≡ true
unfolding holds_all lookup
holds_all_self [] d = refl
holds_all_self ((k, v) ∷ m) d =
    ground (arith, holds_all-cons k v m m d.0, holds_all_self m d.1, str_eq_self k, str_eq_self v)

pub env_maps_equal_self : (m : StringMap) → AreDistinct m → env_maps_equal m m ≡ true
unfolding env_maps_equal
env_maps_equal_self m d = ground (arith, holds_all_self m d)

eq_bool_self : (b : Bool) → eq_bool b b ≡ true
unfolding eq_bool
eq_bool_self b = ground arith

eq_texts_self : (l : List String) → eq_texts l l ≡ true
unfolding eq_texts
eq_texts_self [] = refl
eq_texts_self (t ∷ l) = ground (arith, str_eq_self t, eq_texts_self l)

eq_ℤ_self : (a : ℤ) → eq_ℤ a a ≡ true
eq_ℤ_self a = ground arith

and_true : (a b : Bool) → a ≡ true → b ≡ true → a && b ≡ true
and_true a b h k = ground arith

eq_slice_self : (o : Option (List String)) → eq_slice o o ≡ true
eq_slice_self none = refl
eq_slice_self (some l) = eq_texts_self l

eq_ready_self : (o : Option Ready) → eq_ready o o ≡ true
unfolding eq_ready
eq_ready_self none = refl
eq_ready_self (some r) = ground (arith, eq_slice_self r.command, str_eq_self r.on_timeout)

services_equal_self : (s : Service) → AreDistinct (or_default [] s.env) → services_equal s s ≡ true
unfolding services_equal
services_equal_self s d =
    rw
      (
        eq_bool_self (is_reloadable s),
        eq_bool_self (wants_pdeathsig s),
        eq_ℤ_self (crash_budget s),
        str_eq_self s.name,
        eq_texts_self (or_default [] s.command),
        str_eq_self s.cwd,
        str_eq_self s.user,
        str_eq_self s.group,
        str_eq_self s.restart,
        eq_ℤ_self s.backoff_initial,
        eq_ℤ_self s.backoff_max,
        eq_ℤ_self s.backoff_reset_after,
        str_eq_self s.stop_signal,
        eq_ℤ_self s.stop_timeout,
        str_eq_self s.on_boot_failure,
        env_maps_equal_self (or_default [] s.env) d,
        str_eq_self s.log.stdout,
        str_eq_self s.log.stderr,
        eq_ready_self s.ready,
        eq_bool_self s.replicas.auto,
        eq_ℤ_self s.replicas_min,
        eq_ℤ_self s.replicas_max,
        str_eq_self s.reload_signal,
        eq_texts_self (or_default [] s.reload_command),
        eq_texts_self (or_default [] s.reload_on_change),
      )
      (ground arith)

-- The new config has, for exactly the files that run, the service that their replicas were made from.
pub record IsInSync (o : Orchestrator) (new : Config) : Type 0 where
  pub same_env : env_maps_equal o.cfg.globals.env new.globals.env ≡ true
  pub same_services :
      (fn : String)
      → ((runners_of fn o.runners ≡ []) × (service_of fn new.services ≡ none))
        ⊎ ((r : Runner) × (rest : List Runner) × (runners_of fn o.runners ≡ r ∷ rest)
            × (service_of fn new.services ≡ some r.spec)
            × AreDistinct (or_default [] r.spec.env))

nothing_to_do :
    (o : Orchestrator) (new : Config) (fn : String)
    → IsInSync o new
    → let rs = runners_of fn o.runners in
      let s = service_of fn new.services in
      let env_changed = not (env_maps_equal o.cfg.globals.env new.globals.env) in
      ((b : Bool) → should_remove rs s b ≡ false)
      × (should_add rs s ≡ false)
      × (should_restart env_changed rs s ≡ false)
nothing_to_do o new fn h = elim (h.same_services fn) [
  | inl (a, b) ↦ (λ k. rw (a, b) refl, rw (a, b) refl, rw a refl)
  | inr (r, rest, a, b, d) ↦ (
    λ k. rw b refl,
    rw (a, b) refl,
    rw (a, b, h.same_env, services_equal_self r.spec d) (ground arith),
  )
]

none_removed : (l : List Runner) → ((fn : String) → in_removed fn l ≡ false) → l ≡ []
unfolding in_removed
none_removed [] h = refl
none_removed (r ∷ l) h = absurd (ground (arith, h (file_of r), str_eq_self (file_of r)))

none_added : (l : List Service) → ((fn : String) → in_added fn l ≡ false) → l ≡ []
unfolding in_added
none_added [] h = refl
none_added (s ∷ l) h = absurd (ground (arith, h s.filename, str_eq_self s.filename))

none_restarted : (l : List RestartPair) → ((fn : String) → in_restarted fn l ≡ false) → l ≡ []
unfolding in_restarted
none_restarted [] h = refl
none_restarted (p ∷ l) h =
    absurd (ground (arith, h (file_of p.first), str_eq_self (file_of p.first)))

-- A reload of a configuration that has the same global environment, and for exactly the files that run
-- the service that their replicas were made from, removes, adds and restarts nothing, in whatever
-- order the running files are visited. Equality of services is reflexive where the keys of [env]
-- differ, as they do in a Go map.
pub compute_diff_in_sync :
    (visits : List String) (o : Orchestrator) (new : Config)
    → IsInSync o new
    → let d = compute_diff visits o new in (d.remove ≡ []) × (d.add ≡ []) × (d.restart ≡ [])
unfolding compute_diff guard_names
compute_diff_in_sync visits o new h =
    let p = proposed o new in
    let choice = λ (fn : String). proposed_choice o new fn in
    let idle = λ (fn : String). nothing_to_do o new fn h in
    let removed : p.remove ≡ [] = none_removed p.remove (λ fn. (choice fn).0 ∙ (idle fn).0 _) in
    let added : p.add ≡ [] = none_added p.add (λ fn. (choice fn).1 ∙ (idle fn).1) in
    let restarted : p.restart ≡ [] = none_restarted p.restart (λ fn. (choice fn).2 ∙ (idle fn).2) in
    (
      removed,
      ap (λ l. (keep_adds visits p o.runners l).0) added ∙ unfold keep_adds in refl,
      ap (λ l. (keep_restarts visits p o.runners l).0) restarted ∙ unfold keep_restarts in refl,
    )
