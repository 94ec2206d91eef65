-- ===== src/Supervisor/Scoped/Names.antt =====
-- internal/supervisor/reload.go: the name guard does not know what a scoped update leaves out.
use mathlib.Core.List.{Memᴰ}
use mathlib.Core.Path.{subst}
use zpinit.Base.{
  ℕ, zero, suc, ◌≤◌, String, ◌≡◌, ◌≢◌, refl, sym, ap, ◌∙◌, Bool, true, false, not, some, List, [],
  ◌∷◌, map, arith, if◌then◌else◌,
}
use zpinit.Base.Int.{ltb_ℤ, pos, pos_part}
use zpinit.Base.Texts.{str_eq_self}
use zpinit.Config.Types.{Service, Config}
use zpinit.Supervisor.Runner.State.{Runner, is_terminal, new_runner_for_replica}
use zpinit.Supervisor.Replica.{replica_at, expand_from, expand_service_to_runners}
use zpinit.Supervisor.Registry.{runner_of}
use zpinit.Supervisor.Reload.{Applied, fresh, resolve}
use zpinit.Supervisor.Reload.Realised.{realised}
use zpinit.Supervisor.Diff.{
  Orchestrator, RestartPair, file_of, runners_of, service_of, in_restarted, compute_diff,
  guard_names, proposed,
}
use zpinit.Supervisor.Diff.Choice.{should_restart, proposed_choice}
use zpinit.Supervisor.Diff.InSync.{AreDistinct, env_maps_equal_self}
use zpinit.Supervisor.Diff.Pairs.{proposed-IsPaired}
use zpinit.Supervisor.Diff.Keep.{mem-keep_restarts}
use zpinit.Supervisor.Reload.Jobs.{IsOrdered}
use zpinit.Config.Replicas.{is_replicated}
use zpinit.Supervisor.Scoped.{
  wants, scope_names, is_wanted, restrict, probe, applies, reload_scoped,
}
use zpinit.Supervisor.Scoped.Untouched.{reload_scoped_touches}

restart-was :
    (visits : List String) (o : Orchestrator) (new : Config) (p : RestartPair)
    → Memᴰ p (compute_diff visits o new).restart
    → Memᴰ p (proposed o new).restart
unfolding compute_diff guard_names
restart-was visits o new p m =
    (mem-keep_restarts visits (proposed o new) o.runners p (proposed o new).restart m).0

mem-in_restarted :
    (p : RestartPair) (l : List RestartPair) → Memᴰ p l → in_restarted (file_of p.first) l ≡ true
unfolding in_restarted
mem-in_restarted p [] m = elim m [ ]
mem-in_restarted p (q ∷ l) (Memᴰ.head e) = rw e (ground (arith, str_eq_self (file_of q.first)))
mem-in_restarted p (q ∷ l) (Memᴰ.tail m) = ground (arith, mem-in_restarted p l m)

-- there is a first runner, and it has the name of the service
abbrev pub FirstHasName : String → List Runner → Type 0
FirstHasName name rs = (q : Runner) × (rest : List Runner) × (rs ≡ q ∷ rest) × (q.cfg.name ≡ name)

first-expand_from :
    (env : List String) (s : Service) (i n : ℕ)
    → 1 ≤ n
    → FirstHasName s.name (map runner_of (expand_from s env i n))
unfolding expand_from runner_of replica_at new_runner_for_replica
first-expand_from env s i zero h = absurd (omega arith)
first-expand_from env s i (suc n) h = (
  runner_of (replica_at s env (is_replicated s.replicas) i),
  map runner_of (expand_from s env (suc i) n),
  refl,
  refl,
)

fresh-FirstHasName : (env : List String) (s : Service) → FirstHasName s.name (fresh env s)
unfolding fresh expand_service_to_runners
fresh-FirstHasName env s =
    first-expand_from env s 0 (if ltb_ℤ s.replicas.n (pos 1) then 1 else pos_part s.replicas.n)
      (ground arith)

-- a service that restarts has new runners
restarted-realised :
    (skipped : Bool) (env : List String) (rs : List Runner) (s : Service)
    → should_restart false rs (some s) ≡ true
    → realised skipped false env rs (some s) ≡ fresh env s
restarted-realised k env [] s h = absurd (cc h)
restarted-realised k env (r ∷ rs) s h = rw h refl

other_file :
    (fn g : String) (files : List String)
    → is_wanted g files ≡ true
    → is_wanted fn files ≡ false
    → fn ≢ g
other_file fn g files w u e = cc (w, u, e)

-- the file of a restart has new runners with the name of the new spec
restarted-FirstHasName :
    (o : Orchestrator) (new : Config) (p : RestartPair) (rs : List Runner) (skipped : Bool)
    → AreDistinct o.cfg.globals.env
    → Memᴰ p (proposed o (probe new o)).restart
    → rs
      ≡ realised skipped false o.base_env
          (runners_of p.new.filename o.runners)
          (service_of p.new.filename (resolve new o).services)
    → FirstHasName p.new.name rs
restarted-FirstHasName o new p rs skipped distinct m e =
    let pair = proposed-IsPaired o (probe new o) p m in
    let fn = file_of p.first in
    let restarts : should_restart false (runners_of fn o.runners) (some p.new) ≡ true =
      ap (λ b. should_restart (not b) (runners_of fn o.runners) (some p.new))
        (sym (env_maps_equal_self o.cfg.globals.env distinct))
      ∙ ap (should_restart _ (runners_of fn o.runners)) (sym pair.the_service)
      ∙ sym (proposed_choice o (probe new o) fn).2
      ∙ mem-in_restarted p (proposed o (probe new o)).restart m in
    let whole : rs ≡ fresh o.base_env p.new =
      e
      ∙ ap
          (λ g.
            realised skipped false o.base_env (runners_of g o.runners)
              (service_of g (resolve new o).services))
          pair.same_file
      ∙ ap (realised skipped false o.base_env (runners_of fn o.runners)) pair.the_service
      ∙ restarted-realised skipped o.base_env (runners_of fn o.runners) p.new restarts in
    let (q, rest, f, n) = fresh-FirstHasName o.base_env p.new in (q, rest, whole ∙ f, n)

-- The name guard judges the full diff. Let that diff have no conflict and restart a service under a name
-- that a registered service of another file has, and let a scoped update want the file of the restart
-- but not the other file. Every name of the update resolves, the orchestrator runs and does not stop, and
-- every stop ends its runner. Then the update is applied without an error, and two services of different
-- files are registered under one name: the other file keeps its runners, and the restarted one has new
-- runners of the same name.
pub scoped_name_taken :
    (after : Runner → Runner)
    → ((r : Runner) → is_terminal (after r).state ≡ true)
    → (visits : List String) (new : Config) (names files : List String) (o : Orchestrator)
    → o.stopping ≡ false
    → o.running ≡ true
    → IsOrdered o.runners
    → AreDistinct o.cfg.globals.env
    → scope_names names (resolve new o).services o.runners ≡ wants files []
    → (compute_diff visits o (probe new o)).conflicts ≡ []
    → (p : RestartPair) (fn : String) (r : Runner) (rest : List Runner)
    → Memᴰ p (compute_diff visits o (probe new o)).restart
    → is_wanted p.new.filename files ≡ true
    → runners_of fn o.runners ≡ r ∷ rest
    → is_wanted fn files ≡ false
    → p.new.name ≡ r.cfg.name
    → (a : Applied) × (reload_scoped after false visits new names o
        ≡ applies (restrict files (compute_diff visits o (probe new o))) a)
      × (a.errors ≡ [])
      × (fn ≢ p.new.filename)
      × (runners_of fn a.after.runners ≡ r ∷ rest)
      × FirstHasName r.cfg.name (runners_of p.new.filename a.after.runners)
scoped_name_taken after ends visits new names files o going ready ordered distinct scope free p fn r
      rest m wanted runs left same =
    let (a, e, errors, globals, base, files_run) =
      reload_scoped_touches after ends visits new names files o going ready ordered distinct scope
        free in
    let m' = restart-was visits o (probe new o) p m in
    (
      a,
      e,
      errors,
      other_file fn p.new.filename files wanted left,
      (rw left at (files_run fn)) ∙ runs,
      subst (λ n. FirstHasName n (runners_of p.new.filename a.after.runners)) same
          (restarted-FirstHasName o new p (runners_of p.new.filename a.after.runners) _ distinct m'
            (rw wanted at (files_run p.new.filename))),
    )
