-- ===== src/Supervisor/Replica/Expand.antt =====
-- internal/supervisor/replica.go: what expandServiceToRunners makes of a service.
use zpinit.Base.{
  ℕ, zero, suc, String, ◌≡◌, refl, ap, Bool, false, List, [], ◌∷◌, arith, map, if◌then◌else◌,
}
use zpinit.Base.Int.{pos, pos_part, ltb_ℤ}
use zpinit.Config.Types.{Service}
use zpinit.Config.Replicas.{is_replicated}
use zpinit.Supervisor.Replica.{ReplicaSpec, replica_at, expand_from, expand_service_to_runners}

-- i, i + 1, … : n numbers
pub count_up : ℕ → ℕ → List ℕ
count_up i zero = []
count_up i (suc n) = i ∷ count_up (suc i) n

abbrev pub All {ℓ κ} : {A : Type ℓ} → (A → Type κ) → List A → Type κ
All P [] = Unit
All P (x ∷ xs) = P x × All P xs

-- The two things the rest of the supervisor relies on: the shared spec is the service as loaded, and
-- the copy differs from it in nothing but the log paths.
pub record IsReplicaOf (svc : Service) (r : ReplicaSpec) : Type 0 where
  pub same_spec : r.spec ≡ svc
  pub same_but_log : record svc { log = r.cfg.log } ≡ r.cfg

replica_at-IsReplicaOf :
    (svc : Service) (base : List String) (b : Bool) (i : ℕ)
    → IsReplicaOf svc (replica_at svc base b i)
unfolding replica_at
replica_at-IsReplicaOf svc base b i = record { same_spec = refl; same_but_log = refl }

expand_from-index :
    (svc : Service) (base : List String) (i n : ℕ)
    → map (λ (r : ReplicaSpec). r.index) (expand_from svc base i n) ≡ count_up i n
unfolding expand_from count_up replica_at
expand_from-index svc base i zero = refl
expand_from-index svc base i (suc n) = ap (λ r. i ∷ r) (expand_from-index svc base (suc i) n)

expand_from-All :
    (svc : Service) (base : List String) (i n : ℕ)
    → All (IsReplicaOf svc) (expand_from svc base i n)
unfolding expand_from
expand_from-All svc base i zero = tt
expand_from-All svc base i (suc n) = (
  replica_at-IsReplicaOf svc base (is_replicated svc.replicas) i,
  expand_from-All svc base (suc i) n,
)

-- A service expands into the replicas 0, 1, … up to its count, one if the count is below 1; each
-- carries the service itself as its spec, and a copy that differs from it in the log paths alone.
pub expand_service_to_runners_replicas :
    (svc : Service) (base : List String)
    → (map (λ (r : ReplicaSpec). r.index) (expand_service_to_runners svc base)
        ≡ count_up 0 (if ltb_ℤ svc.replicas.n (pos 1) then 1 else pos_part svc.replicas.n))
      × All (IsReplicaOf svc) (expand_service_to_runners svc base)
unfolding expand_service_to_runners
expand_service_to_runners_replicas svc base =
    (expand_from-index svc base 0 _, expand_from-All svc base 0 _)

-- A service that is not replicated becomes one runner with the log paths and the environment that it
-- would have had before replicas existed.
pub expand_service_to_runners_single :
    (svc : Service) (base : List String)
    → is_replicated svc.replicas ≡ false
    → expand_service_to_runners svc base
      ≡ record { cfg = svc; spec = svc; env = base; index = 0 } ∷ []
unfolding expand_service_to_runners expand_from replica_at is_replicated
expand_service_to_runners_single svc base h = ground arith
