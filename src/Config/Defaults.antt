-- ===== src/Config/Defaults.antt =====
-- internal/config/load.go: applyGlobalDefaults and applyServiceDefaults.
use zpinit.Base.{ℕ, ◌*◌, String, Bool, not, ◌&&◌, Option, none, some, [], ◌∷◌, if◌then◌else◌}
use zpinit.Base.Int.{pos, eq_ℤ}
use zpinit.Base.Texts.{str_eq}
use zpinit.Config.Types.{
  Duration, Replicas, Logging, Ready, Service, ResourcesBlock, Globals, restart_always, boot_fail,
  ready_fail,
}

-- time.Second, time.Millisecond and time.Minute
abbrev pub second : ℕ
second = 1000000000

abbrev pub millisecond : ℕ
millisecond = 1000000

abbrev pub minute : ℕ
minute = 60 * second

abbrev pub or_text : String → String → String
or_text d s = if str_eq s "" then d else s

abbrev pub or_duration : Duration → Duration → Duration
or_duration d v = if eq_ℤ v (pos 0) then d else v

abbrev pub default_resources : ResourcesBlock → ResourcesBlock
default_resources r = record r {
  scale_up_after = or_duration (pos (5 * second)) r.scale_up_after;
  scale_down_after = or_duration (pos (30 * second)) r.scale_down_after;
  poll_interval = or_duration (pos (15 * minute)) r.poll_interval;
}

unfoldable pub apply_global_defaults : Globals → Globals
apply_global_defaults g = record {
  entrypoint_on_failure = or_text "fail" g.entrypoint_on_failure;
  entrypoint_script_timeout = or_duration (pos (5 * minute)) g.entrypoint_script_timeout;
  boot_timeout = or_duration (pos (60 * second)) g.boot_timeout;
  default_stop_signal = or_text "TERM" g.default_stop_signal;
  default_stop_timeout = or_duration (pos (10 * second)) g.default_stop_timeout;
  exit_code_from = or_text "default" g.exit_code_from;
  control_socket = or_text "/run/zpinit.sock" g.control_socket;
  env = g.env;
  resources = default_resources g.resources;
}

abbrev pub default_replicas : Replicas → Replicas
default_replicas r = if not r.auto && eq_ℤ r.n (pos 0) then record r { n = pos 1 } else r

abbrev pub default_log : Logging → Logging
default_log l = record { stdout = or_text "inherit" l.stdout; stderr = or_text "inherit" l.stderr }

abbrev pub default_ready : Option Ready → Option Ready
default_ready none = none
default_ready (some r) = some (record {
  command = r.command;
  interval = or_duration (pos (500 * millisecond)) r.interval;
  timeout = or_duration (pos (30 * second)) r.timeout;
  on_timeout = or_text ready_fail r.on_timeout;
})

-- The flag tells whether the file has the key reload_on_change.
unfoldable pub apply_service_defaults : Service → Globals → Bool → Service
apply_service_defaults s g reload_on_change_set = record s {
  replicas = default_replicas s.replicas;
  reload_on_change =
      if s.replicas.auto && not reload_on_change_set
      then some ("cpu" ∷ "memory" ∷ [])
      else s.reload_on_change;
  restart = or_text restart_always s.restart;
  on_boot_failure = or_text boot_fail s.on_boot_failure;
  backoff_initial = or_duration (pos (1 * second)) s.backoff_initial;
  backoff_max = or_duration (pos (30 * second)) s.backoff_max;
  backoff_reset_after = or_duration (pos (60 * second)) s.backoff_reset_after;
  stop_signal = or_text g.default_stop_signal s.stop_signal;
  stop_timeout = or_duration g.default_stop_timeout s.stop_timeout;
  log = default_log s.log;
  ready = default_ready s.ready;
}
