-- ===== src/Config/Validate/Service.antt =====
-- internal/config/load.go: validateService, check by check in its order.
use zpinit.Base.{
  ℕ, String, Bool, true, false, not, ◌&&◌, ◌||◌, Option, none, some, List, [], ◌∷◌, ◌++◌, leb, ◌==◌,
  if◌then◌else◌,
}
use zpinit.Base.Int.{ℤ, pos, ltb_ℤ, eq_ℤ}
use zpinit.Base.Texts.{codes, str_eq}
use zpinit.Config.Types.{
  StringMap, Duration, Ready, Service, or_default, is_nonempty, restart_always, restart_on_failure,
  restart_never, boot_fail, boot_continue, ready_fail, ready_continue,
}
use zpinit.Config.Signal.{parse_signal}

pub data ServiceError : Type 0 where
  bad_name bad_restart bad_on_boot_failure bad_stop_signal bad_reload_signal : String → ServiceError
  bad_dimension bad_env_key reserved_env_key bad_on_timeout : String → ServiceError
  command_required auto_never min_above_max replicas_below_one bounds_without_auto : ServiceError
  reload_exclusive ready_command_required negative_interval negative_timeout : ServiceError
  negative_min negative_max max_above_limit min_above_limit : ℤ → ServiceError
  replicas_above_limit negative_crash_budget : ℤ → ServiceError
  negative_duration : String → ServiceError

abbrev pub max_replicas : ℕ
max_replicas = 64

abbrev pub reserved_env_keys : List String
reserved_env_keys =
    "ZPINIT_REPLICA_INDEX" ∷ "ZPINIT_CPU_COUNT" ∷ "ZPINIT_CPU_QUOTA" ∷ "ZPINIT_MEMORY_BYTES" ∷ []

unfoldable pub mem_text : String → List String → Bool
mem_text k [] = false
mem_text k (r ∷ rest) = str_eq k r || mem_text k rest

unfoldable pub is_reserved_env_key : String → Bool
unfolding mem_text
is_reserved_env_key k = mem_text k reserved_env_keys

abbrev pub is_letter : ℕ → Bool
is_letter c = leb b'a' c && leb c b'z' || leb b'A' c && leb c b'Z'

abbrev pub is_digit : ℕ → Bool
is_digit c = leb b'0' c && leb c b'9'

abbrev pub is_name_code : ℕ → Bool
is_name_code c = is_letter c || is_digit c || c == b'_' || c == b'-'

abbrev is_key_code : ℕ → Bool
is_key_code c = is_letter c || is_digit c || c == b'_'

abbrev pub all_codes : (ℕ → Bool) → List ℕ → Bool
all_codes p [] = true
all_codes p (c ∷ rest) = p c && all_codes p rest

-- ^[a-zA-Z0-9_-]+$
unfoldable pub matches_name : String → Bool
matches_name s = is_nonempty (codes s) && all_codes is_name_code (codes s)

abbrev matches_key_codes : List ℕ → Bool
matches_key_codes [] = false
matches_key_codes (c ∷ rest) = (is_letter c || c == b'_') && all_codes is_key_code rest

-- ^[A-Za-z_][A-Za-z0-9_]*$
unfoldable pub matches_env_key : String → Bool
matches_env_key s = matches_key_codes (codes s)

abbrev is_signal : Option ℕ → Bool
is_signal none = false
is_signal (some s) = true

unfoldable pub is_signal_name : String → Bool
unfolding parse_signal
is_signal_name s = is_signal (parse_signal (codes s))

-- if the test holds, the error
abbrev pub when {ℓ} : {E : Type ℓ} → Bool → E → List E
when true e = e ∷ []
when false e = []

unfoldable pub check_bounds : Service → List ServiceError
check_bounds s =
    if s.replicas.auto
    then when (str_eq s.restart restart_never) auto_never
      ++ when (ltb_ℤ s.replicas_min (pos 0)) (negative_min s.replicas_min)
      ++ when (ltb_ℤ s.replicas_max (pos 0)) (negative_max s.replicas_max)
      ++ when
          (ltb_ℤ (pos 0) s.replicas_min
            && ltb_ℤ (pos 0) s.replicas_max
            && ltb_ℤ s.replicas_max s.replicas_min)
          min_above_max
      ++ when (ltb_ℤ (pos max_replicas) s.replicas_max) (max_above_limit s.replicas_max)
      ++ when (ltb_ℤ (pos max_replicas) s.replicas_min) (min_above_limit s.replicas_min)
    else when (ltb_ℤ s.replicas.n (pos 1)) replicas_below_one
      ++ when (ltb_ℤ (pos max_replicas) s.replicas.n) (replicas_above_limit s.replicas.n)
      ++ when (not (eq_ℤ s.replicas_min (pos 0)) || not (eq_ℤ s.replicas_max (pos 0)))
          bounds_without_auto

unfoldable pub check_crash_budget : Option ℤ → List ServiceError
check_crash_budget none = []
check_crash_budget (some n) = when (ltb_ℤ n (pos 0)) (negative_crash_budget n)

unfoldable pub check_reload : Service → List ServiceError
unfolding is_signal_name
check_reload s =
    when (not (str_eq s.reload_signal "") && is_nonempty (or_default [] s.reload_command))
      reload_exclusive
    ++ when (not (str_eq s.reload_signal "") && not (is_signal_name s.reload_signal))
        (bad_reload_signal s.reload_signal)

unfoldable pub check_dimensions : List String → List ServiceError
check_dimensions [] = []
check_dimensions (dim ∷ rest) =
    when (not (str_eq dim "cpu") && not (str_eq dim "memory")) (bad_dimension dim)
    ++ check_dimensions rest

unfoldable pub check_env : StringMap → List ServiceError
unfolding matches_env_key is_reserved_env_key
check_env [] = []
check_env ((k, v) ∷ rest) =
    when (not (matches_env_key k)) (bad_env_key k)
    ++ when (is_reserved_env_key k) (reserved_env_key k)
    ++ check_env rest

unfoldable pub check_ready : Option Ready → List ServiceError
check_ready none = []
check_ready (some r) =
    when (not (is_nonempty (or_default [] r.command))) ready_command_required
    ++ when (not (str_eq r.on_timeout ready_fail) && not (str_eq r.on_timeout ready_continue))
        (bad_on_timeout r.on_timeout)
    ++ when (ltb_ℤ r.interval (pos 0)) negative_interval
    ++ when (ltb_ℤ r.timeout (pos 0)) negative_timeout

unfoldable pub check_durations : List (String × Duration) → List ServiceError
check_durations [] = []
check_durations ((name, v) ∷ rest) =
    when (ltb_ℤ v (pos 0)) (negative_duration name) ++ check_durations rest

unfoldable pub validate_service : Service → List ServiceError
validate_service s =
    when (not (matches_name s.name)) (bad_name s.name)
    ++ when (not (is_nonempty (or_default [] s.command))) command_required
    ++ when
        (not (str_eq s.restart restart_always)
          && not (str_eq s.restart restart_on_failure)
          && not (str_eq s.restart restart_never))
        (bad_restart s.restart)
    ++ when
        (not (str_eq s.on_boot_failure boot_fail) && not (str_eq s.on_boot_failure boot_continue))
        (bad_on_boot_failure s.on_boot_failure)
    ++ when (not (is_signal_name s.stop_signal)) (bad_stop_signal s.stop_signal)
    ++ check_bounds s
    ++ check_crash_budget s.max_consecutive_crashes
    ++ check_reload s
    ++ check_dimensions (or_default [] s.reload_on_change)
    ++ check_env (or_default [] s.env)
    ++ check_ready s.ready
    ++ check_durations (
        ("stop_timeout", s.stop_timeout)
        ∷ ("backoff_initial", s.backoff_initial)
        ∷ ("backoff_max", s.backoff_max)
        ∷ ("backoff_reset_after", s.backoff_reset_after)
        ∷ [])
