-- ===== src/Config/Validate/Minimal.antt =====
-- internal/config/load.go: the defaults of a service file.
use zpinit.Base.{
  ◌*◌, String, ◌≡◌, refl, inl, inr, Bool, true, false, not, ◌&&◌, Option, none, some, List, [], ◌∷◌,
  arith, if◌then◌else◌,
}
use zpinit.Base.Int.{pos, ◌≤ℤ◌}
use zpinit.Base.Texts.{str_eq-ne}
use zpinit.Config.Types.{
  Duration, Replicas, Logging, Ready, Service, Globals, or_default, is_nonempty, restart_always,
  boot_fail, ready_fail,
}
use zpinit.Config.Defaults.{
  or_text, or_duration, default_replicas, default_log, default_ready, apply_service_defaults,
  second, millisecond,
}
use zpinit.Config.Validate.Checks.{HasBounds, IsDimension}
use zpinit.Supervisor.Replica.Expand.{All}
use zpinit.Config.Validate.Service.{matches_name, is_signal_name, validate_service}
use zpinit.Config.Validate.Accepted.{validate_service_accepts}

-- What the decoder leaves of a file that sets the name, the command and replicas = "auto" or nothing.
abbrev pub bare_service : String → String → List String → Bool → Service
bare_service filename name command auto = record {
  filename = filename;
  name = name;
  command = some command;
  cwd = "";
  user = "";
  group = "";
  restart = "";
  backoff_initial = pos 0;
  backoff_max = pos 0;
  backoff_reset_after = pos 0;
  stop_signal = "";
  stop_timeout = pos 0;
  on_boot_failure = "";
  reloadable = none;
  env = none;
  log = record { stdout = ""; stderr = "" };
  ready = none;
  replicas = record { n = pos 0; auto = auto };
  replicas_min = pos 0;
  replicas_max = pos 0;
  reload_signal = "";
  reload_command = none;
  reload_on_change = none;
  pdeathsig = none;
  max_consecutive_crashes = none;
}

module _ (filename name : String) (command : List String) (g : Globals) where
  abbrev with_defaults : Bool → Service
  with_defaults auto = apply_service_defaults (bare_service filename name command auto) g false

  with_defaults-HasBounds : (auto : Bool) → HasBounds (with_defaults auto)
  unfolding apply_service_defaults
  with_defaults-HasBounds true = inl (
    refl,
    str_eq-ne "always" "never" refl,
    omega arith,
    omega arith,
    omega arith,
    omega arith,
    λ h. omega arith,
  )
  with_defaults-HasBounds false = inr (refl, omega arith, omega arith, refl, refl)

  with_defaults-IsDimension :
      (auto : Bool) → All IsDimension (or_default [] (with_defaults auto).reload_on_change)
  unfolding apply_service_defaults
  with_defaults-IsDimension true = (inl refl, (inr refl, tt))
  with_defaults-IsDimension false = tt

-- A service file that sets no more than a valid name, a command and perhaps replicas = "auto" is
-- accepted with the defaults, if the default stop signal is a signal's name and the default stop
-- timeout is not negative.
pub bare_service_accepted :
    (filename name : String) (command : List String) (auto : Bool) (g : Globals)
    → matches_name name ≡ true
    → is_nonempty command ≡ true
    → is_signal_name g.default_stop_signal ≡ true
    → pos 0 ≤ℤ g.default_stop_timeout
    → validate_service (apply_service_defaults (bare_service filename name command auto) g false)
      ≡ []
unfolding apply_service_defaults
bare_service_accepted filename name command auto g named commanded signal timeout =
    (validate_service_accepts
        (apply_service_defaults (bare_service filename name command auto) g false)).1
      (record {
        name = named;
        command = commanded;
        restart = inl refl;
        on_boot = inl refl;
        stop_signal = signal;
        bounds = with_defaults-HasBounds filename name command g auto;
        crash_budget = tt;
        reload = inl refl;
        dimensions = with_defaults-IsDimension filename name command g auto;
        env = tt;
        ready = tt;
        stop_timeout = timeout;
        backoff_initial = omega arith;
        backoff_max = omega arith;
        backoff_reset_after = omega arith;
      })

or_text_again : (d s : String) → or_text d (or_text d s) ≡ or_text d s
or_text_again d s = ground arith

or_duration_again : (d v : Duration) → or_duration d (or_duration d v) ≡ or_duration d v
or_duration_again d v = ground arith

default_replicas_again : (r : Replicas) → default_replicas (default_replicas r) ≡ default_replicas r
default_replicas_again r = ground arith

default_log_again : (l : Logging) → default_log (default_log l) ≡ default_log l
default_log_again l = rw (or_text_again "inherit" l.stdout, or_text_again "inherit" l.stderr)

default_ready_again : (o : Option Ready) → default_ready (default_ready o) ≡ default_ready o
default_ready_again none = refl
default_ready_again (some r) = rw (
  or_duration_again (pos (500 * millisecond)) r.interval,
  or_duration_again (pos (30 * second)) r.timeout,
  or_text_again ready_fail r.on_timeout,
)

abbrev default_reload : Service → Bool → Option (List String)
default_reload s set =
    if s.replicas.auto && not set then some ("cpu" ∷ "memory" ∷ []) else s.reload_on_change

default_replicas-auto : (r : Replicas) → (default_replicas r).auto ≡ r.auto
default_replicas-auto r = ground arith

reload_again :
    (s : Service) (set : Bool)
    → (if (default_replicas s.replicas).auto && not set
        then some ("cpu" ∷ "memory" ∷ [])
        else default_reload s set)
      ≡ default_reload s set
reload_again s set = rw (default_replicas-auto s.replicas) (ground arith)

-- Applying the defaults a second time changes nothing.
pub apply_service_defaults_again :
    (s : Service) (g : Globals) (set : Bool)
    → let t = apply_service_defaults s g set in apply_service_defaults t g set ≡ t
unfolding apply_service_defaults
apply_service_defaults_again s g set =
    rw
      (
        default_replicas_again s.replicas,
        or_text_again restart_always s.restart,
        or_text_again boot_fail s.on_boot_failure,
        or_duration_again (pos (1 * second)) s.backoff_initial,
        or_duration_again (pos (30 * second)) s.backoff_max,
        or_duration_again (pos (60 * second)) s.backoff_reset_after,
        or_text_again g.default_stop_signal s.stop_signal,
        or_duration_again g.default_stop_timeout s.stop_timeout,
        default_log_again s.log,
        default_ready_again s.ready,
        reload_again s set,
      )
      refl
