-- ===== src/Supervisor/Runner/State.antt =====
-- internal/supervisor/runner.go: the runner's state, its observers and its small methods. The two
-- timers are variables of Run; here they are fields of the same record. A channel is the list of
-- what it holds, oldest first.
use zpinit.Base.{
  ℕ, String, Bool, true, false, not, ◌&&◌, Option, none, some, List, [], ◌∷◌, ◌++◌, ltb, ◌==◌,
  if◌then◌else◌, length,
}
use zpinit.Base.Int.{ℤ, pos}
use zpinit.Base.Texts.{str_eq, cat}
use zpinit.Base.Decimal.{itoa}
use zpinit.Config.Types.{Service, restart_always}
use zpinit.Config.Replicas.{is_replicated}
use zpinit.Reaper.Exit.{ExitInfo, no_exit}
use zpinit.Supervisor.Replica.{compose_replica_env}

pub data State : Type 0 where
  pending starting running backoff stopping stopped fatal : State

pub State-discrete : Discrete State
State-discrete = hlevel

-- The rank of a state, to compare two of them.
abbrev rank : State → ℕ
rank pending = 0
rank starting = 1
rank running = 2
rank backoff = 3
rank stopping = 4
rank stopped = 5
rank fatal = 6

abbrev pub same_state : State → State → Bool
same_state a b = rank a == rank b

abbrev pub is_terminal : State → Bool
is_terminal stopped = true
is_terminal fatal = true
is_terminal _ = false

-- A live child: its PID, and the exit that waits in its channel of one slot.
pub record Process : Type 0 where
  pub pid : ℕ
  pub exit : Option ExitInfo

pub record TerminalInfo : Type 0 where
  pub state : State
  pub manual : Bool
  pub valid : Bool

pub record Runner : Type 0 where
  pub cfg : Service
  pub spec : Service
  pub base_env : List String
  pub replica_index : ℕ
  pub state : State
  pub process : Option Process
  pub last_exit : ExitInfo
  pub crashes : ℕ
  -- time on the clock in nanoseconds; `none` is the zero Time
  pub up_since : Option ℕ
  pub next_delay : ℤ
  pub stopped_manually : Bool
  pub last_terminal : TerminalInfo
  pub removing : Bool
  pub shutting_down : Bool
  pub observers : List (List State)
  pub total_spawns : ℕ
  pub ready_passed : Bool
  pub backoff_timer : Option ℤ
  pub stop_kill_timer : Option ℤ

unfoldable pub new_runner_for_replica : Service → Service → List String → ℕ → Runner
new_runner_for_replica cfg spec base_env replica_index = record {
  cfg = cfg;
  spec = spec;
  base_env = base_env;
  replica_index = replica_index;
  state = pending;
  process = none;
  last_exit = no_exit;
  crashes = 0;
  up_since = none;
  next_delay = pos 0;
  stopped_manually = false;
  last_terminal = record { state = pending; manual = false; valid = false };
  removing = false;
  shutting_down = false;
  observers = [];
  total_spawns = 0;
  ready_passed = false;
  backoff_timer = none;
  stop_kill_timer = none;
}

-- NewRunner: the service's own config is its spec
unfoldable pub new_runner : Service → List String → ℕ → Runner
unfolding new_runner_for_replica
new_runner cfg base_env replica_index = new_runner_for_replica cfg cfg base_env replica_index

unfoldable pub display_name : Runner → String
unfolding is_replicated cat
display_name r =
    if not (is_replicated r.cfg.replicas)
    then r.cfg.name
    else cat r.cfg.name (cat "/" (itoa r.replica_index))

unfoldable pub mark_removing : Runner → Runner
mark_removing r = record r { removing = true }

unfoldable pub clear_removing : Runner → Runner
clear_removing r = record r { removing = false }

unfoldable pub set_shutting_down : Bool → Runner → Runner
set_shutting_down on r = record r { shutting_down = on }

unfoldable pub mark_ready : Runner → Runner
mark_ready r = record r { ready_passed = true }

unfoldable pub set_base_env : List String → Runner → Runner
set_base_env env r = record r {
  base_env = compose_replica_env env r.replica_index (is_replicated r.spec.replicas);
}

abbrev pub observer_capacity : ℕ
observer_capacity = 32

-- a send that does not block: a full channel misses the event
unfoldable pub offer : State → List State → List State
offer s ch = if ltb (length ch) observer_capacity then ch ++ s ∷ [] else ch

unfoldable pub broadcast : State → List (List State) → List (List State)
unfolding offer
broadcast s [] = []
broadcast s (ch ∷ rest) = offer s ch ∷ broadcast s rest

-- Observe adds a channel that holds nothing yet.
unfoldable pub observe : Runner → Runner
observe r = record r { observers = r.observers ++ [] ∷ [] }

unfoldable pub set_state : State → Runner → Runner
set_state s r =
    if same_state s r.state then r else record r { state = s; observers = broadcast s r.observers }

unfoldable pub set_terminal : State → Bool → Runner → Runner
unfolding set_state
set_terminal s manual r =
    set_state s (record r { last_terminal = record { state = s; manual = manual; valid = true } })

unfoldable pub completed_cleanly : Runner → Bool
completed_cleanly r =
    same_state r.state stopped
    && not (str_eq r.cfg.restart restart_always)
    && not r.stopped_manually
    && (not (r.last_exit.pid == 0) && not r.last_exit.signaled && r.last_exit.exit_code == 0)

abbrev pid_of : Option Process → ℕ
pid_of none = 0
pid_of (some p) = p.pid

pub record Status : Type 0 where
  pub state : State
  pub manual : Bool
  pub pid : ℕ
  pub up_since : Option ℕ
  pub crashes : ℕ
  pub last_exit : ExitInfo
  pub ready_passed : Bool
  pub total_spawns : ℕ

unfoldable pub snapshot : Runner → Status
snapshot r = record {
  state = r.state;
  manual = r.stopped_manually;
  pid = pid_of r.process;
  up_since = r.up_since;
  crashes = r.crashes;
  last_exit = r.last_exit;
  ready_passed = r.ready_passed;
  total_spawns = r.total_spawns;
}
