-- ===== src/Supervisor/Diff/Choice.antt =====
-- internal/supervisor/diff.go: which files a reload removes, adds and restarts.
use zpinit.Base.{
  String, ◌≡◌, refl, ◌∙◌, ap, Bool, true, false, not, ◌&&◌, ◌||◌, Option, none, some, List, [], ◌∷◌,
  ◌++◌, arith, inl, inr, Bool-cases,
}
use zpinit.Base.Texts.{str_eq, str_eq_self, str_eq-eq}
use zpinit.Config.Types.{Service, FileError, Config, is_reloadable, is_nonempty}
use zpinit.Supervisor.Runner.State.{Runner}
use zpinit.Supervisor.Equal.{env_maps_equal, services_equal}
use zpinit.Supervisor.Diff.{
  Orchestrator, RestartPair, ReloadDiff, file_of, runners_of, service_of, is_skipped, insert_file,
  runner_files, service_files, ordered_files, decide, prepend, walk_files, in_removed, in_restarted,
  is_in, env_restart, env_restarts, proposed,
}

-- What should happen to a file, from the runners that it has, the service that the new config has
-- for it, and whether its file was skipped.
abbrev pub should_remove : List Runner → Option Service → Bool → Bool
should_remove rs none skipped = is_nonempty rs && not skipped
should_remove rs (some s) skipped = false

abbrev pub should_add : List Runner → Option Service → Bool
should_add rs none = false
should_add rs (some s) = not (is_nonempty rs)

abbrev pub should_restart : Bool → List Runner → Option Service → Bool
should_restart env_changed [] s = false
should_restart env_changed (r ∷ rest) none = false
should_restart env_changed (r ∷ rest) (some s) =
    is_reloadable r.spec && (not (services_equal r.spec s) || env_changed)

unfoldable pub in_added : String → List Service → Bool
in_added fn [] = false
in_added fn (s ∷ rest) = str_eq s.filename fn || in_added fn rest

unfoldable pub mem_file : String → List String → Bool
mem_file fn [] = false
mem_file fn (g ∷ rest) = str_eq g fn || mem_file fn rest

pub service_of-filename :
    (fn : String) (l : List Service) (s : Service) → service_of fn l ≡ some s → s.filename ≡ fn
unfolding service_of
service_of-filename fn [] s h = cc
service_of-filename fn (t ∷ l) s h =
    ground (arith, service_of-filename fn l s, str_eq-eq t.filename fn)

pub in_removed-append :
    (fn : String) (a b : List Runner) → in_removed fn (a ++ b) ≡ in_removed fn a || in_removed fn b
unfolding in_removed
in_removed-append fn [] b = refl
in_removed-append fn (r ∷ a) b = ground (arith, in_removed-append fn a b)

pub in_removed-runners_of :
    (fn g : String) (l : List Runner)
    → in_removed fn (runners_of g l) ≡ str_eq g fn && is_nonempty (runners_of g l)
unfolding in_removed runners_of
in_removed-runners_of fn g [] = ground arith
in_removed-runners_of fn g (r ∷ l) =
    ground (arith, in_removed-runners_of fn g l, str_eq-eq (file_of r) g)

abbrev pub IsNamed : String → Option Service → Type 0
IsNamed g none = Unit
IsNamed g (some s) = s.filename ≡ g

pub service_of-IsNamed : (g : String) (l : List Service) → IsNamed g (service_of g l)
service_of-IsNamed g l = named (service_of g l) refl
  where
    named : (o : Option Service) → service_of g l ≡ o → IsNamed g o
    named none e = tt
    named (some s) e = service_of-filename g l s e

-- all the runners are of the file
abbrev pub IsFiled : String → List Runner → Type 0
IsFiled g [] = Unit
IsFiled g (r ∷ rest) = (file_of r ≡ g) × IsFiled g rest

pub runners_of-IsFiled : (g : String) (l : List Runner) → IsFiled g (runners_of g l)
unfolding runners_of
runners_of-IsFiled g [] = tt
runners_of-IsFiled g (r ∷ l) = elim (Bool-cases (str_eq (file_of r) g)) [
  | inl e ↦ rw e (str_eq-eq (file_of r) g e, runners_of-IsFiled g l)
  | inr e ↦ rw e (runners_of-IsFiled g l)
]

added-decide :
    (fn g : String) (rs : List Runner) (o : Option Service) (skipped : List FileError)
    (d : ReloadDiff)
    → IsNamed g o
    → in_added fn (prepend (decide g rs o skipped) d).add
      ≡ str_eq g fn && should_add rs o || in_added fn d.add
unfolding decide in_added prepend
added-decide fn g [] none skipped d h = ground arith
added-decide fn g [] (some s) skipped d h = rw h (ground arith)
added-decide fn g (r ∷ rs) none skipped d h = ground arith
added-decide fn g (r ∷ rs) (some s) skipped d h = ground arith

restarted-decide :
    (fn g : String) (rs : List Runner) (o : Option Service) (skipped : List FileError)
    (d : ReloadDiff)
    → IsFiled g rs
    → in_restarted fn (prepend (decide g rs o skipped) d).restart
      ≡ str_eq g fn && should_restart false rs o || in_restarted fn d.restart
unfolding decide in_restarted prepend
restarted-decide fn g [] none skipped d h = ground arith
restarted-decide fn g [] (some s) skipped d h = ground arith
restarted-decide fn g (r ∷ rs) none skipped d h = ground arith
restarted-decide fn g (r ∷ rs) (some s) skipped d h = rw h.0 (ground arith)

module _ (runners : List Runner) (new : Config) where
  pub remove_formula :
      (fn : String) (files : List String)
      → in_removed fn (walk_files files runners new).remove
        ≡ mem_file fn files
          && should_remove
              (runners_of fn runners)
              (service_of fn new.services)
              (is_skipped fn new.skipped_files)
  unfolding walk_files mem_file decide in_removed
  remove_formula fn [] = refl
  remove_formula fn (g ∷ files) = ground (
    arith,
    remove_formula fn files,
    in_removed-append fn (runners_of g runners) (walk_files files runners new).remove,
    in_removed-runners_of fn g runners,
    str_eq-eq g fn,
  )

  add_formula :
      (fn : String) (files : List String)
      → in_added fn (walk_files files runners new).add
        ≡ mem_file fn files && should_add (runners_of fn runners) (service_of fn new.services)
  unfolding walk_files mem_file
  add_formula fn [] = unfold in_added in refl
  add_formula fn (g ∷ files) = ground (
    arith,
    add_formula fn files,
    added-decide fn g (runners_of g runners) (service_of g new.services) new.skipped_files
        (walk_files files runners new) (service_of-IsNamed g new.services),
    str_eq-eq g fn,
  )

  pub restart_formula :
      (fn : String) (files : List String)
      → in_restarted fn (walk_files files runners new).restart
        ≡ mem_file fn files
          && should_restart false (runners_of fn runners) (service_of fn new.services)
  unfolding walk_files mem_file
  restart_formula fn [] = unfold in_restarted in refl
  restart_formula fn (g ∷ files) = ground (
    arith,
    restart_formula fn files,
    restarted-decide fn g (runners_of g runners) (service_of g new.services) new.skipped_files
        (walk_files files runners new) (runners_of-IsFiled g runners),
    str_eq-eq g fn,
  )

in_restarted-append :
    (fn : String) (a b : List RestartPair)
    → in_restarted fn (a ++ b) ≡ in_restarted fn a || in_restarted fn b
unfolding in_restarted
in_restarted-append fn [] b = refl
in_restarted-append fn (p ∷ a) b = ground (arith, in_restarted-append fn a b)

-- a restart for the environment alone
abbrev pub for_env : Bool → List Runner → Option Service → Bool
for_env touched [] s = false
for_env touched (r ∷ rest) none = false
for_env touched (r ∷ rest) (some s) = not touched && is_reloadable r.spec

in_env_restart :
    (fn g : String) (touched : Bool) (rs : List Runner) (o : Option Service)
    → IsFiled g rs
    → in_restarted fn (env_restart touched rs o) ≡ str_eq g fn && for_env touched rs o
unfolding env_restart in_restarted
in_env_restart fn g touched [] o h = ground arith
in_env_restart fn g touched (r ∷ rs) none h = ground arith
in_env_restart fn g touched (r ∷ rs) (some s) h = rw h.0 (ground arith)

pub env_formula :
    (runners : List Runner) (new : Config) (d : ReloadDiff) (fn : String) (files : List String)
    → in_restarted fn (env_restarts files d runners new)
      ≡ mem_file fn files
        && for_env (is_in fn d) (runners_of fn runners) (service_of fn new.services)
unfolding env_restarts mem_file
env_formula runners new d fn [] = unfold in_restarted in refl
env_formula runners new d fn (g ∷ files) = ground (
  arith,
  env_formula runners new d fn files,
  in_restarted-append fn
      (env_restart (is_in g d) (runners_of g runners) (service_of g new.services))
      (env_restarts files d runners new),
  in_env_restart fn g (is_in g d) (runners_of g runners) (service_of g new.services)
      (runners_of-IsFiled g runners),
  str_eq-eq g fn,
)

pub mem_file-insert_file :
    (fn g : String) (l : List String) → mem_file fn (insert_file g l) ≡ str_eq g fn || mem_file fn l
unfolding mem_file insert_file
mem_file-insert_file fn g [] = refl
mem_file-insert_file fn g (k ∷ l) =
    ground (arith, mem_file-insert_file fn g l, str_eq-eq g k, str_eq_self g)

abbrev pub is_found : Option Service → Bool
is_found none = false
is_found (some s) = true

mem_file-service_files :
    (fn : String) (l : List Service) → mem_file fn (service_files l) ≡ is_found (service_of fn l)
unfolding service_files service_of
mem_file-service_files fn [] = unfold mem_file in refl
mem_file-service_files fn (s ∷ l) =
    ground
      (arith, mem_file-service_files fn l, mem_file-insert_file fn s.filename (service_files l))

mem_file-runner_files :
    (fn : String) (l : List Runner) (files : List String)
    → mem_file fn (runner_files l files) ≡ is_nonempty (runners_of fn l) || mem_file fn files
unfolding runner_files runners_of
mem_file-runner_files fn [] files = refl
mem_file-runner_files fn (r ∷ l) files = ground (
  arith,
  mem_file-runner_files fn l files,
  mem_file-insert_file fn (file_of r) (runner_files l files),
)

pub mem_file-ordered_files :
    (fn : String) (rs : List Runner) (ss : List Service)
    → mem_file fn (ordered_files rs ss)
      ≡ is_nonempty (runners_of fn rs) || is_found (service_of fn ss)
unfolding ordered_files
mem_file-ordered_files fn rs ss =
    mem_file-runner_files fn rs (service_files ss)
    ∙ ap (λ b. is_nonempty (runners_of fn rs) || b) (mem_file-service_files fn ss)

-- Of every file the diff before the name guard decides by three facts, the running replicas, the
-- service in the new config and whether the file was skipped: it is removed exactly if it runs, is not
-- in the new config and was not skipped; added exactly if it does not run and is in the new config;
-- restarted exactly if it runs, is in the new config, is reloadable, and its spec or the global
-- environment changed.
pub proposed_choice :
    (o : Orchestrator) (new : Config) (fn : String)
    → let rs = runners_of fn o.runners in
      let s = service_of fn new.services in
      let env_changed = not (env_maps_equal o.cfg.globals.env new.globals.env) in
      (in_removed fn (proposed o new).remove ≡ should_remove rs s (is_skipped fn new.skipped_files))
      × (in_added fn (proposed o new).add ≡ should_add rs s)
      × (in_restarted fn (proposed o new).restart ≡ should_restart env_changed rs s)
unfolding proposed is_in
proposed_choice o new fn =
    let files = ordered_files o.runners new.services in
    let d = walk_files files o.runners new in
    let all = mem_file-ordered_files fn o.runners new.services in
    let removed = remove_formula o.runners new fn files in
    let added = add_formula o.runners new fn files in
    let restarted = restart_formula o.runners new fn files in
    let more = env_formula o.runners new d fn files in
    let both = in_restarted-append fn d.restart (env_restarts files d o.runners new) in
    (
      ground (arith, all, removed),
      ground (arith, all, added),
      ground (arith, all, removed, restarted, more, both),
    )
