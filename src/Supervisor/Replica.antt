-- ===== src/Supervisor/Replica.antt =====
-- internal/supervisor/replica.go: replica counts, and the log paths and environment of a replica.
pub mod Target
pub mod Env
pub mod Expand
use zpinit.Base.{
  ℕ, zero, suc, String, Bool, true, false, not, ◌&&◌, Option, none, some, List, [], ◌∷◌, ◌++◌,
  if◌then◌else◌,
}
use zpinit.Base.Int.{ℤ, pos, pos_part, ltb_ℤ}
use zpinit.Base.Texts.{cat, has_prefix}
use zpinit.Base.Decimal.{itoa}
use zpinit.Config.Types.{Replicas, Logging, Service}
use zpinit.Config.Replicas.{is_replicated, replica_log_path}
use zpinit.Config.Validate.Service.{max_replicas}
use zpinit.Resources.Snapshot.{Snapshot}

abbrev pub raise_to : ℤ → ℤ → ℤ
raise_to low t = if ltb_ℤ (pos 0) low && ltb_ℤ t low then low else t

abbrev pub lower_to : ℤ → ℤ → ℤ
lower_to high t = if ltb_ℤ (pos 0) high && ltb_ℤ high t then high else t

-- Without a bound that is set, `raise_to` and `lower_to` leave the target alone.
unfoldable pub compute_auto_target : Service → Snapshot → ℤ
compute_auto_target s snap =
    let natural = if ltb_ℤ snap.cpu_count (pos 1) then pos 1 else snap.cpu_count in
    let raised = raise_to s.replicas_min natural in
    let bounded = lower_to s.replicas_max raised in
    let capped = if ltb_ℤ (pos max_replicas) bounded then pos max_replicas else bounded in
    if ltb_ℤ capped (pos 1) then pos 1 else capped

unfoldable pub resolve_auto_replicas_at_boot : List Service → Snapshot → List Service
unfolding compute_auto_target
resolve_auto_replicas_at_boot [] snap = []
resolve_auto_replicas_at_boot (s ∷ rest) snap =
    (if s.replicas.auto
      then record s { replicas = record { n = compute_auto_target s snap; auto = s.replicas.auto } }
      else s)
    ∷ resolve_auto_replicas_at_boot rest snap

unfoldable pub index_key : String
index_key = "ZPINIT_REPLICA_INDEX="

unfoldable pub index_entry : ℕ → String
unfolding cat
index_entry idx = cat index_key (itoa idx)

-- the loop over base, and whether it saw the key
unfoldable pub replace_index : List String → ℕ → List String
replace_index [] idx = []
replace_index (e ∷ rest) idx =
    (if has_prefix index_key e then index_entry idx else e) ∷ replace_index rest idx

unfoldable pub has_index : List String → Bool
has_index [] = false
has_index (e ∷ rest) = if has_prefix index_key e then true else has_index rest

unfoldable pub compose_replica_env : List String → ℕ → Bool → List String
unfolding replace_index has_index
compose_replica_env base idx replicated =
    if not replicated
    then base
    else if has_index base
    then replace_index base idx
    else replace_index base idx ++ index_entry idx ∷ []

-- What NewRunnerForReplica is given for one replica; the spawner, clock and log are the same for all.
pub record ReplicaSpec : Type 0 where
  pub cfg : Service
  pub spec : Service
  pub env : List String
  pub index : ℕ

-- The body of the loops of expandServiceToRunners and scaleUp.
unfoldable pub replica_at : Service → List String → Bool → ℕ → ReplicaSpec
unfolding compose_replica_env replica_log_path
replica_at svc base_env replicated i = record {
  cfg = record svc {
    log = record {
      stdout = replica_log_path svc.log.stdout i replicated;
      stderr = replica_log_path svc.log.stderr i replicated;
    };
  };
  spec = svc;
  env = compose_replica_env base_env i replicated;
  index = i;
}

unfoldable pub expand_from : Service → List String → ℕ → ℕ → List ReplicaSpec
expand_from svc base_env i zero = []
expand_from svc base_env i (suc left) =
    replica_at svc base_env (is_replicated svc.replicas) i ∷ expand_from svc base_env (suc i) left

unfoldable pub expand_service_to_runners : Service → List String → List ReplicaSpec
unfolding expand_from
expand_service_to_runners svc base_env =
    expand_from svc base_env 0 (if ltb_ℤ svc.replicas.n (pos 1) then 1 else pos_part svc.replicas.n)
