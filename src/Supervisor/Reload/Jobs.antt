-- ===== src/Supervisor/Reload/Jobs.antt =====
-- internal/supervisor/reload.go and replica.go: the runners that a reload registers for a service.
use zpinit.Base.{
  ℕ, zero, suc, String, ◌≡◌, refl, true, List, [], ◌∷◌, ◌++◌, arith, map, if◌then◌else◌,
}
use zpinit.Base.Texts.{str_eq, str_eq_self}
use zpinit.Config.Types.{Service}
use zpinit.Supervisor.Runner.State.{Runner}
use zpinit.Supervisor.Replica.{replica_at, expand_from, expand_service_to_runners}
use zpinit.Supervisor.Diff.{runners_of}
use zpinit.Supervisor.Replica.Expand.{All}
use zpinit.Supervisor.Registry.{runner_of, runner_ltb, insert_runner, sort_runners}
use zpinit.Supervisor.Reload.{fresh, boot_jobs}
use zpinit.Supervisor.Reload.Specs.{specs_of}

pub runners_of-append :
    (fn : String) (a b : List Runner) → runners_of fn (a ++ b) ≡ runners_of fn a ++ runners_of fn b
unfolding runners_of
runners_of-append fn [] b = refl
runners_of-append fn (r ∷ a) b = ground (arith, runners_of-append fn a b)

-- the replicas from an index on
abbrev fresh_from : List String → Service → ℕ → ℕ → List Runner
fresh_from env s i n = map runner_of (expand_from s env i n)

runners_of-fresh_from :
    (fn : String) (env : List String) (s : Service) (i n : ℕ)
    → runners_of fn (fresh_from env s i n)
      ≡ (if str_eq s.filename fn then fresh_from env s i n else [])
unfolding expand_from runners_of replica_at runner_of
runners_of-fresh_from fn env s i zero = ground arith
runners_of-fresh_from fn env s i (suc n) = ground (arith, runners_of-fresh_from fn env s (suc i) n)

runners_of-fresh :
    (fn : String) (env : List String) (s : Service)
    → runners_of fn (fresh env s) ≡ (if str_eq s.filename fn then fresh env s else [])
unfolding fresh expand_service_to_runners
runners_of-fresh fn env s = runners_of-fresh_from fn env s 0 _

sort_runners-fresh_from :
    (env : List String) (s : Service) (i n : ℕ)
    → sort_runners (fresh_from env s i n) ≡ fresh_from env s i n
unfolding expand_from sort_runners insert_runner runner_ltb replica_at runner_of
sort_runners-fresh_from env s i zero = refl
sort_runners-fresh_from env s i (suc zero) = refl
sort_runners-fresh_from env s i (suc (suc n)) =
    ground (arith, sort_runners-fresh_from env s (suc i) (suc n), str_eq_self s.filename)

pub sort_runners-fresh :
    (env : List String) (s : Service) → sort_runners (fresh env s) ≡ fresh env s
unfolding fresh expand_service_to_runners
sort_runners-fresh env s = sort_runners-fresh_from env s 0 _

pub runners_of-boot_jobs :
    (fn : String) (env : List String) (specs : List Service)
    → runners_of fn (boot_jobs env specs) ≡ boot_jobs env (specs_of fn specs)
unfolding boot_jobs specs_of
runners_of-boot_jobs fn env [] = unfold runners_of in refl
runners_of-boot_jobs fn env (s ∷ specs) = ground (
  arith,
  runners_of-append fn (fresh env s) (boot_jobs env specs),
  runners_of-fresh fn env s,
  runners_of-boot_jobs fn env specs,
)

-- A registry in strict order: by file name, and by index within a file.
abbrev pub IsOrdered : List Runner → Type 0
IsOrdered [] = Unit
IsOrdered (r ∷ rest) = All (λ (q : Runner). runner_ltb r q ≡ true) rest × IsOrdered rest

insert_runner-least :
    (r : Runner) (l : List Runner)
    → All (λ (q : Runner). runner_ltb r q ≡ true) l
    → insert_runner r l ≡ r ∷ l
unfolding insert_runner
insert_runner-least r [] h = refl
insert_runner-least r (q ∷ l) h = rw h.0

pub sort_runners_ordered : (l : List Runner) → IsOrdered l → sort_runners l ≡ l
unfolding sort_runners
sort_runners_ordered [] h = refl
sort_runners_ordered (r ∷ l) h = rw (sort_runners_ordered l h.1) (insert_runner-least r l h.0)
