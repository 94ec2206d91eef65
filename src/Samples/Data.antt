-- ===== src/Samples/Data.antt =====
-- Services, runners and configurations to run the models on.
use zpinit.Base.{◌*◌, ℕ, String, false, true, Option, none, some, List, [], ◌∷◌}
use zpinit.Base.Int.{pos}
use zpinit.Config.Types.{Service, Globals, Config, restart_always}
use zpinit.Resources.Snapshot.{Snapshot}
use zpinit.Reaper.Exit.{ExitInfo, no_exit}
use zpinit.Supervisor.Runner.State.{State, pending, running, Process, Runner}
use zpinit.Supervisor.Runner.Handlers.{World}
use zpinit.Supervisor.Diff.{Orchestrator}

abbrev pub service : String → String → String → Service
service filename name command = record {
  filename = filename;
  name = name;
  command = some (command ∷ []);
  cwd = "";
  user = "";
  group = "";
  restart = restart_always;
  backoff_initial = pos 1000;
  backoff_max = pos 30000;
  backoff_reset_after = pos 60000;
  stop_signal = "INT";
  stop_timeout = pos 10000;
  on_boot_failure = "fail";
  reloadable = none;
  env = none;
  log = record { stdout = "inherit"; stderr = "/var/log/web.{index}" };
  ready = none;
  replicas = record { n = pos 1; auto = false };
  replicas_min = pos 0;
  replicas_max = pos 0;
  reload_signal = "";
  reload_command = none;
  reload_on_change = none;
  pdeathsig = none;
  max_consecutive_crashes = some (pos 2);
}

abbrev pub web : Service
web = service "10-web.toml" "web" "/bin/web"

-- three replicas, decided by the CPU count
abbrev pub workers : Service
workers = record (service "20-work.toml" "work" "/bin/work") {
  replicas = record { n = pos 3; auto = true };
}

abbrev pub runner : Service → ℕ → State → Option Process → Runner
runner s i state process = record {
  cfg = s;
  spec = s;
  base_env = "A=1" ∷ [];
  replica_index = i;
  state = state;
  process = process;
  last_exit = no_exit;
  crashes = 0;
  up_since = some 5;
  next_delay = pos 1000;
  stopped_manually = false;
  last_terminal = record { state = pending; manual = false; valid = false };
  removing = false;
  shutting_down = false;
  observers = [];
  total_spawns = 1;
  ready_passed = false;
  backoff_timer = none;
  stop_kill_timer = none;
}

abbrev pub child : Option ExitInfo → Process
child exit = record { pid = 100; exit = exit }

abbrev pub crash_of : ℕ → ExitInfo
crash_of pid = record no_exit { pid = pid; exit_code = 3 }

abbrev pub web_running : Runner
web_running = runner web 0 running (some (child none))

-- the clock stands still, a spawn answers with PID 100, and nothing jitters
abbrev pub world : World
world = record { spawn = λ s env. some 100; now = 7; shift = λ d. pos 0 }

abbrev pub cpus : ℕ → Snapshot
cpus n = record {
  cpu_quota = pos (n * 1000);
  cpu_count = pos n;
  memory_bytes = 4096;
  cgroup_resolved = true;
}

abbrev pub globals : Globals
globals = record {
  entrypoint_on_failure = "fail";
  entrypoint_script_timeout = pos 0;
  boot_timeout = pos 0;
  default_stop_signal = "TERM";
  default_stop_timeout = pos 0;
  exit_code_from = "default";
  control_socket = "";
  env = [];
  resources = record {
    reserve_cpu = pos 0;
    reserve_memory = 0;
    scale_up_after = pos 5;
    scale_down_after = pos 30;
    poll_interval = pos 900;
  };
}

abbrev pub config : List Service → Config
config services = record { globals = globals; services = services; skipped_files = [] }

abbrev pub orchestrator : List Service → List Runner → Orchestrator
orchestrator services runners = record {
  cfg = config services;
  runners = runners;
  base_env = "A=1" ∷ [];
  stopping = false;
  running = true;
  current_snapshot = cpus 4;
  resource_env = [];
  watcher = none;
  watcher_gen = 0;
}
