-- ===== src/Supervisor/Diff/Pairs.antt =====
-- internal/supervisor/diff.go: what the restarts of a diff pair up.
use mathlib.Core.List.{Memᴰ}
use zpinit.Base.{
  String, ◌≡◌, refl, sym, ◌∙◌, ap, Bool, true, false, Option, none, some, List, [], ◌∷◌, ◌++◌,
  arith,
}
use zpinit.Config.Types.{Service, FileError, Config}
use zpinit.Supervisor.Runner.State.{Runner}
use zpinit.Supervisor.Replica.Expand.{All}
use zpinit.Supervisor.Diff.{
  Orchestrator, RestartPair, ReloadDiff, file_of, runners_of, service_of, ordered_files, decide,
  prepend, walk_files, is_in, env_restart, env_restarts, propagate_env, proposed,
}
use zpinit.Supervisor.Diff.Choice.{IsNamed, service_of-IsNamed, IsFiled, runners_of-IsFiled}

-- A restart takes all the replicas of its file, and the service that the new config has for it.
pub record IsPaired (runners : List Runner) (services : List Service) (p : RestartPair)
    : Type 0 where
  pub same_file : p.new.filename ≡ file_of p.first
  pub the_service : service_of (file_of p.first) services ≡ some p.new
  pub all_replicas : runners_of (file_of p.first) runners ≡ p.first ∷ p.others

All-append {ℓ κ} :
    {A : Type ℓ} (P : A → Type κ) (xs ys : List A) → All P xs → All P ys → All P (xs ++ ys)
All-append P [] ys h k = k
All-append P (x ∷ xs) ys h k = (h.0, All-append P xs ys h.1 k)

All-mem {ℓ κ} : {A : Type ℓ} (P : A → Type κ) (xs : List A) {a : A} → All P xs → Memᴰ a xs → P a
All-mem P [] h m = elim m [ ]
All-mem P (x ∷ xs) h (Memᴰ.head e) = rw e h.0
All-mem P (x ∷ xs) h (Memᴰ.tail m) = All-mem P xs h.1 m

module _ (runners : List Runner) (services : List Service) where
  a_pair :
      (g : String) (r : Runner) (rs : List Runner) (s : Service)
      → runners_of g runners ≡ r ∷ rs
      → service_of g services ≡ some s
      → IsPaired runners services (record { first = r; others = rs; new = s })
  a_pair g r rs s er es =
      let filed : IsFiled g (r ∷ rs) = rw er at (runners_of-IsFiled g runners) in
      let named : IsNamed g (some s) = rw es at (service_of-IsNamed g services) in
      record {
        same_file = named ∙ sym filed.0;
        the_service = ap (λ f. service_of f services) filed.0 ∙ es;
        all_replicas = ap (λ f. runners_of f runners) filed.0 ∙ er;
      }

  prepend-IsPaired :
      (g : String) (rs : List Runner) (o : Option Service) (skipped : List FileError)
      (d : ReloadDiff)
      → runners_of g runners ≡ rs
      → service_of g services ≡ o
      → All (IsPaired runners services) d.restart
      → All (IsPaired runners services) (prepend (decide g rs o skipped) d).restart
  unfolding prepend decide
  prepend-IsPaired g [] none skipped d er es h = h
  prepend-IsPaired g [] (some s) skipped d er es h = h
  prepend-IsPaired g (r ∷ rs) none skipped d er es h = ground arith
  prepend-IsPaired g (r ∷ rs) (some s) skipped d er es h = ground (arith, a_pair g r rs s er es)

  env_restart-IsPaired :
      (g : String) (touched : Bool) (rs : List Runner) (o : Option Service)
      → runners_of g runners ≡ rs
      → service_of g services ≡ o
      → All (IsPaired runners services) (env_restart touched rs o)
  unfolding env_restart
  env_restart-IsPaired g touched [] o er es = tt
  env_restart-IsPaired g touched (r ∷ rs) none er es = tt
  env_restart-IsPaired g touched (r ∷ rs) (some s) er es = ground (arith, a_pair g r rs s er es)

module _ (runners : List Runner) (new : Config) where
  walk_files-IsPaired :
      (files : List String)
      → All (IsPaired runners new.services) (walk_files files runners new).restart
  unfolding walk_files
  walk_files-IsPaired [] = tt
  walk_files-IsPaired (fn ∷ files) =
      prepend-IsPaired runners new.services fn (runners_of fn runners) (service_of fn new.services)
        new.skipped_files (walk_files files runners new) refl refl (walk_files-IsPaired files)

  env_restarts-IsPaired :
      (files : List String) (d : ReloadDiff)
      → All (IsPaired runners new.services) (env_restarts files d runners new)
  unfolding env_restarts
  env_restarts-IsPaired [] d = tt
  env_restarts-IsPaired (fn ∷ files) d =
      All-append (IsPaired runners new.services)
        (env_restart (is_in fn d) (runners_of fn runners) (service_of fn new.services)) _
        (env_restart-IsPaired runners new.services fn (is_in fn d) (runners_of fn runners)
          (service_of fn new.services) refl refl)
        (env_restarts-IsPaired files d)

  propagate_env-IsPaired :
      (same : Bool) (files : List String) (d : ReloadDiff)
      → All (IsPaired runners new.services) d.restart
      → All (IsPaired runners new.services) (propagate_env same files d runners new).restart
  unfolding propagate_env
  propagate_env-IsPaired true files d h = h
  propagate_env-IsPaired false files d h =
      All-append (IsPaired runners new.services) d.restart _ h (env_restarts-IsPaired files d)

pub proposed-All :
    (o : Orchestrator) (new : Config)
    → All (IsPaired o.runners new.services) (proposed o new).restart
unfolding proposed
proposed-All o new =
    let files = ordered_files o.runners new.services in
    propagate_env-IsPaired o.runners new _ files _ (walk_files-IsPaired o.runners new files)

-- Every restart of the diff before the guard takes all the replicas of its file to the service that
-- the new config has for that file.
pub proposed-IsPaired :
    (o : Orchestrator) (new : Config) (p : RestartPair)
    → Memᴰ p (proposed o new).restart
    → IsPaired o.runners new.services p
proposed-IsPaired o new p =
    All-mem (IsPaired o.runners new.services) (proposed o new).restart (proposed-All o new)
