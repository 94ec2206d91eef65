-- ===== src/Supervisor/Scale/Shrink.antt =====
-- internal/supervisor/scale.go and orchestrator.go: what scaling down leaves of the replicas.
use zpinit.Base.{ℕ, ◌≡◌, ◌≢◌, refl, String, true, List, [], ◌∷◌, arith, some, ltb, if◌then◌else◌}
use zpinit.Base.Int.{pos}
use zpinit.Base.Texts.{str_eq-eq}
use zpinit.Config.Types.{Service}
use zpinit.Supervisor.Runner.State.{Runner, is_terminal}
use zpinit.Supervisor.Diff.{Orchestrator, file_of, runners_of}
use zpinit.Supervisor.Scale.{current_auto_state, is_victim, scale_down, index_of}
use zpinit.Supervisor.Registry.{remove_service_group}

-- the replicas with an index below the target
pub below : ℕ → List Runner → List Runner
below n [] = []
below n (r ∷ rest) = let kept = below n rest in if ltb r.replica_index n then r ∷ kept else kept

-- What a stop may change of a runner leaves it its file and its index.
pub record IsStop (after : Runner → Runner) : Type 0 where
  pub same_file : (r : Runner) → file_of (after r) ≡ file_of r
  pub same_index : (r : Runner) → index_of (after r) ≡ index_of r

module _ (fn : String) (n : ℕ) (after : Runner → Runner) (stop : IsStop after) where
  ended_group :
      ((r : Runner) → is_victim fn (pos n) r ≡ true → is_terminal (after r).state ≡ true)
      → (l : List Runner)
      → runners_of fn (remove_service_group (is_victim fn (pos n)) after l)
        ≡ below n (runners_of fn l)
  unfolding runners_of remove_service_group below
  ended_group ends [] = refl
  ended_group ends (r ∷ l) = ground (arith, ended_group ends l, ends r)

  other_group :
      (g : String)
      → g ≢ fn
      → (l : List Runner)
      → runners_of g (remove_service_group (is_victim fn (pos n)) after l) ≡ runners_of g l
  unfolding runners_of remove_service_group
  other_group g ne [] = refl
  other_group g ne (r ∷ l) = ground (
    arith,
    other_group g ne l,
    stop.same_file r,
    str_eq-eq (file_of r) fn,
    str_eq-eq (file_of r) g,
  )

-- Scaling an auto service down to `n`: if every replica with an index of n or more ends within its
-- stop, just those are gone; whether they end or not, no other file's runners are touched.
pub scale_down_target :
    (fn : String) (after : Runner → Runner) (o : Orchestrator) (spec : Service)
    (running : List Runner) (n : ℕ)
    → IsStop after
    → current_auto_state fn o ≡ some (spec, running)
    → spec.replicas.n ≡ pos n
    → (((r : Runner) → is_victim fn (pos n) r ≡ true → is_terminal (after r).state ≡ true)
        → runners_of fn (scale_down fn after o).runners ≡ below n (runners_of fn o.runners))
      × ((g : String)
          → g ≢ fn
          → runners_of g (scale_down fn after o).runners ≡ runners_of g o.runners)
unfolding scale_down
scale_down_target fn after o spec running n stop c e = (
  λ ends. ground (arith, ended_group fn n after stop ends o.runners, c, e),
  λ g ne. ground (arith, other_group fn n after stop g ne o.runners, c, e),
)
