-- ===== src/Supervisor/Scale/Growth.antt =====
-- internal/supervisor/scale.go: what scaling up and down leave of the replicas.
use Prim.Native.Nat.{max}
use zpinit.Base.{
  ℕ, ◌+◌, ◌-◌, ◌≡◌, refl, ap, String, false, true, some, List, [], ◌∷◌, ◌++◌, map, arith, length,
  if◌then◌else◌,
}
use zpinit.Base.Int.{pos, pos_part}
use zpinit.Base.Texts.{str_eq, str_eq-eq}
use zpinit.Config.Types.{Service}
use zpinit.Supervisor.Runner.State.{Runner}
use zpinit.Supervisor.Diff.{Orchestrator, file_of, runners_of}
use zpinit.Supervisor.Scale.{
  find_service, current_auto_state, allocate, job, index_of, scale_up_jobs, scale_up,
}
use zpinit.Supervisor.Registry.{insert_runner, sort_runners, register_and_boot}
use zpinit.Supervisor.Scale.Indices.{IsAllocation, allocate-IsAllocation, Filled-zero}

-- how many replicas a file has
abbrev pub replicas_of : String → List Runner → ℕ
replicas_of fn rs = length (runners_of fn rs)

replicas_of-append :
    (fn : String) (a b : List Runner)
    → replicas_of fn (a ++ b) ≡ replicas_of fn a + replicas_of fn b
unfolding runners_of
replicas_of-append fn [] b = omega arith
replicas_of-append fn (r ∷ a) b = ground (arith, replicas_of-append fn a b)

replicas_of-insert_runner :
    (fn : String) (r : Runner) (l : List Runner)
    → replicas_of fn (insert_runner r l) ≡ replicas_of fn (r ∷ l)
unfolding runners_of insert_runner
replicas_of-insert_runner fn r [] = refl
replicas_of-insert_runner fn r (q ∷ l) = ground (arith, replicas_of-insert_runner fn r l)

replicas_of-sort_runners :
    (fn : String) (l : List Runner) → replicas_of fn (sort_runners l) ≡ replicas_of fn l
unfolding sort_runners runners_of
replicas_of-sort_runners fn [] = refl
replicas_of-sort_runners fn (r ∷ l) =
    ground (arith, replicas_of-insert_runner fn r (sort_runners l), replicas_of-sort_runners fn l)

job-parts :
    (spec : Service) (base_env : List String) (i : ℕ)
    → (file_of (job spec base_env i) ≡ spec.filename) × (index_of (job spec base_env i) ≡ i)
unfolding job
job-parts spec base_env i = (refl, refl)

replicas_of-jobs :
    (fn g : String) (spec : Service) (base_env : List String) (l : List ℕ)
    → spec.filename ≡ fn
    → replicas_of g (map (job spec base_env) l) ≡ (if str_eq fn g then length l else 0)
unfolding runners_of
replicas_of-jobs fn g spec base_env [] e = ground arith
replicas_of-jobs fn g spec base_env (i ∷ l) e =
    ground (arith, replicas_of-jobs fn g spec base_env l e, (job-parts spec base_env i).0)

indices_of_jobs :
    (spec : Service) (base_env : List String) (l : List ℕ)
    → map index_of (map (job spec base_env) l) ≡ l
indices_of_jobs spec base_env [] = refl
indices_of_jobs spec base_env (i ∷ l) =
    cc (indices_of_jobs spec base_env l, (job-parts spec base_env i).1)

find_service-filename :
    (fn : String) (l : List Service) (s : Service) → find_service fn l ≡ some s → s.filename ≡ fn
unfolding find_service
find_service-filename fn [] s e = cc
find_service-filename fn (t ∷ l) s e =
    ground (arith, find_service-filename fn l s, str_eq-eq t.filename fn)

pub current_auto_state-parts :
    (fn : String) (o : Orchestrator) (spec : Service) (running : List Runner)
    → current_auto_state fn o ≡ some (spec, running)
    → (spec.filename ≡ fn) × (running ≡ runners_of fn o.runners)
unfolding current_auto_state
current_auto_state-parts fn o spec running e =
    ground (arith, find_service-filename fn o.cfg.services spec)

-- The replicas that scaleUp starts for an auto service with fewer than its target: as many as are
-- missing, with indices that no running replica has, all different and all below the target.
pub scale_up_jobs-IsAllocation :
    (spec : Service) (running : List Runner) (base_env : List String) (n : ℕ)
    → spec.replicas.n ≡ pos n
    → IsAllocation
        (n - length running)
        (map index_of running)
        (map index_of (scale_up_jobs spec running base_env))
unfolding scale_up_jobs
scale_up_jobs-IsAllocation spec running base_env n e =
    let l = allocate (n - length running) 0 (map index_of running) in
    rw (ap pos_part e) (
      rw (indices_of_jobs spec base_env l) (
        allocate-IsAllocation (n - length running) 0 (map index_of running)
          (Filled-zero (map index_of running))))

replicas_of-job :
    (fn g : String) (spec : Service) (running : List Runner) (base_env : List String)
    → spec.filename ≡ fn
    → replicas_of g (scale_up_jobs spec running base_env)
      ≡ (if str_eq fn g then pos_part spec.replicas.n - length running else 0)
unfolding scale_up_jobs
replicas_of-job fn g spec running base_env e =
    let missing = pos_part spec.replicas.n - length running in
    let l = allocate missing 0 (map index_of running) in
    let allocated =
      allocate-IsAllocation missing 0 (map index_of running) (Filled-zero (map index_of running)) in
    ground (arith, replicas_of-jobs fn g spec base_env l e, allocated.count)

-- In an orchestrator that runs and is not stopping, scaling an auto service up brings it to its target of replicas, or leaves it if it has as many, and
-- changes the number of replicas of no other file.
pub scale_up_target :
    (fn g : String) (base_env : List String) (o : Orchestrator) (spec : Service)
    (running : List Runner) (n : ℕ)
    → current_auto_state fn o ≡ some (spec, running)
    → spec.replicas.n ≡ pos n
    → o.stopping ≡ false
    → o.running ≡ true
    → replicas_of g (scale_up fn base_env o).runners
      ≡ (if str_eq fn g then max n (replicas_of fn o.runners) else replicas_of g o.runners)
unfolding scale_up register_and_boot
scale_up_target fn g base_env o spec running n c e going ready =
    let jobs = scale_up_jobs spec running base_env in
    let parts = current_auto_state-parts fn o spec running c in
    ground (
      arith,
      parts,
      replicas_of-sort_runners g (o.runners ++ jobs),
      replicas_of-append g o.runners jobs,
      replicas_of-job fn g spec running base_env parts.0,
      str_eq-eq fn g,
    )
