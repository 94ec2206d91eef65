-- ===== src/Supervisor/Scale.antt =====
-- internal/supervisor/scale.go: what a change of the resources does to auto services.
pub mod Indices
pub mod Growth
pub mod Shrink
use zpinit.Base.{
  ℕ, zero, suc, ◌-◌, String, Bool, true, false, not, ◌&&◌, ◌||◌, Option, none, some, List, [], ◌∷◌,
  ◌++◌, map, ltb, leb, ◌==◌, length, if◌then◌else◌,
}
use zpinit.Base.Int.{ℤ, pos, pos_part, eq_ℤ, leb_ℤ, ltb_ℤ}
use zpinit.Base.Texts.{str_eq, text_ltb}
use zpinit.Config.Types.{Service, Config}
use zpinit.Resources.Snapshot.{Snapshot}
use zpinit.Supervisor.Replica.{ReplicaSpec, replica_at, compute_auto_target}
use zpinit.Supervisor.Runner.State.{Runner, new_runner_for_replica, is_terminal, clear_removing}
use zpinit.Supervisor.Diff.{Orchestrator, file_of, runners_of}
use zpinit.Supervisor.Registry.{runner_of, register_and_boot, remove_service_group}

pub record AutoScaleAction : Type 0 where
  pub spec : Service
  pub running : List Runner
  pub target : ℤ

-- the loop of planAutoScale over the services: the new services, and the actions
unfoldable pub plan_services :
    Snapshot → List Runner → List Service → List Service × List AutoScaleAction
unfolding compute_auto_target
plan_services snap runners [] = ([], [])
plan_services snap runners (s ∷ rest) =
    let (services, actions) = plan_services snap runners rest in
    let target = compute_auto_target s snap in
    let running = runners_of s.filename runners in
    let s' = record s { replicas = record { n = target; auto = s.replicas.auto } } in
    if not s.replicas.auto
    then (s ∷ services, actions)
    else if eq_ℤ target (pos (length running))
    then (s ∷ services, actions)
    else (s' ∷ services, record { spec = s'; running = running; target = target } ∷ actions)

unfoldable pub plan_auto_scale : Snapshot → Orchestrator → Orchestrator × List AutoScaleAction
unfolding plan_services
plan_auto_scale snap o =
    let (services, actions) = plan_services snap o.runners o.cfg.services in
    (record o { cfg = record o.cfg { services = services } }, actions)

-- the first service of the file
unfoldable pub find_service : String → List Service → Option Service
find_service fn [] = none
find_service fn (s ∷ rest) = if str_eq s.filename fn then some s else find_service fn rest

abbrev if_auto : Option Service → List Runner → Option (Service × List Runner)
if_auto none running = none
if_auto (some s) running = if s.replicas.auto then some (s, running) else none

unfoldable pub current_auto_state : String → Orchestrator → Option (Service × List Runner)
unfolding find_service
current_auto_state fn o = if_auto (find_service fn o.cfg.services) (runners_of fn o.runners)

unfoldable pub is_used : ℕ → List ℕ → Bool
is_used i [] = false
is_used i (j ∷ rest) = j == i || is_used i rest

-- `for used[idx] { idx++ }`. With more fuel than there are used indices the loop ends by its test.
unfoldable pub next_free : ℕ → ℕ → List ℕ → ℕ
next_free zero idx used = idx
next_free (suc fuel) idx used = elim (is_used idx used) [
  | true ↦ next_free fuel (suc idx) used
  | false ↦ idx
]

-- the loop over the replicas that are missing: the indices that it allocates
unfoldable pub allocate : ℕ → ℕ → List ℕ → List ℕ
allocate zero idx used = []
allocate (suc n) idx used =
    let free = next_free (suc (length used)) idx used in free ∷ allocate n free (free ∷ used)

abbrev pub index_of : Runner → ℕ
index_of r = r.replica_index

-- the runner of a new replica; only auto services reach scaleUp, and those are replicated
unfoldable pub job : Service → List String → ℕ → Runner
unfolding runner_of replica_at
job spec base_env i = runner_of (replica_at spec base_env true i)

unfoldable pub scale_up_jobs : Service → List Runner → List String → List Runner
scale_up_jobs spec running base_env =
    map (job spec base_env)
      (allocate (pos_part spec.replicas.n - length running) 0 (map index_of running))

abbrev grow : Option (Service × List Runner) → List String → Orchestrator → Orchestrator
grow none base_env o = o
grow (some (spec, running)) base_env o =
    if leb_ℤ spec.replicas.n (pos (length running))
    then o
    else (register_and_boot (scale_up_jobs spec running base_env) none o).0

unfoldable pub scale_up : String → List String → Orchestrator → Orchestrator
unfolding register_and_boot
scale_up fn base_env o = grow (current_auto_state fn o) base_env o

abbrev pub is_victim : String → ℤ → Runner → Bool
is_victim fn target r = str_eq (file_of r) fn && leb_ℤ target (pos r.replica_index)

abbrev shrink :
    String → Option (Service × List Runner) → (Runner → Runner) → Orchestrator → Orchestrator
shrink fn none after o = o
shrink fn (some (spec, running)) after o = record o {
  runners = remove_service_group (is_victim fn spec.replicas.n) after o.runners;
}

unfoldable pub scale_down : String → (Runner → Runner) → Orchestrator → Orchestrator
scale_down fn after o = shrink fn (current_auto_state fn o) after o

unfoldable pub apply_auto_scale :
    List AutoScaleAction → List String → (Runner → Runner) → Orchestrator → Orchestrator
apply_auto_scale [] base_env after o = o
apply_auto_scale (a ∷ rest) base_env after o = apply_auto_scale rest base_env after (
    if ltb_ℤ (pos (length a.running)) a.target
    then scale_up a.spec.filename base_env o
    else scale_down a.spec.filename after o)
