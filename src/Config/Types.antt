-- ===== src/Config/Types.antt =====
-- internal/config/config.go: the records that the loader fills and the supervisor reads, and the
-- methods of Service and Config. A Go string type stays a text, since the loader stores whatever
-- the file says and validation comes later. A nil map or slice is `none`, an empty one `some []`.
use zpinit.Base.{ℕ, String, Bool, true, false, ◌||◌, Option, none, some, List, [], ◌∷◌}
use zpinit.Base.Int.{ℤ, pos}

-- map[string]string as its entries; the loader's maps hold each key once.
abbrev pub StringMap : Type 0
StringMap = List (String × String)

-- a time.Duration in nanoseconds
abbrev pub Duration : Type 0
Duration = ℤ

abbrev pub restart_always : String
restart_always = "always"

abbrev pub restart_on_failure : String
restart_on_failure = "on-failure"

abbrev pub restart_never : String
restart_never = "never"

abbrev pub ready_fail : String
ready_fail = "fail"

abbrev pub ready_continue : String
ready_continue = "continue"

abbrev pub boot_fail : String
boot_fail = "fail"

abbrev pub boot_continue : String
boot_continue = "continue"

pub record Replicas : Type 0 where
  pub n : ℤ
  pub auto : Bool

pub record Logging : Type 0 where
  pub stdout : String
  pub stderr : String

pub record Ready : Type 0 where
  pub command : Option (List String)
  pub interval : Duration
  pub timeout : Duration
  pub on_timeout : String

pub record Service : Type 0 where
  pub filename : String
  pub name : String
  pub command : Option (List String)
  pub cwd : String
  pub user : String
  pub group : String
  pub restart : String
  pub backoff_initial : Duration
  pub backoff_max : Duration
  pub backoff_reset_after : Duration
  pub stop_signal : String
  pub stop_timeout : Duration
  pub on_boot_failure : String
  pub reloadable : Option Bool
  pub env : Option StringMap
  pub log : Logging
  pub ready : Option Ready
  pub replicas : Replicas
  pub replicas_min : ℤ
  pub replicas_max : ℤ
  pub reload_signal : String
  pub reload_command : Option (List String)
  pub reload_on_change : Option (List String)
  pub pdeathsig : Option Bool
  pub max_consecutive_crashes : Option ℤ

-- A nil pointer means the default.
abbrev pub or_default {ℓ} : {A : Type ℓ} → A → Option A → A
or_default d none = d
or_default d (some a) = a

abbrev pub default_max_consecutive_crashes : ℤ
default_max_consecutive_crashes = pos 5

unfoldable pub crash_budget : Service → ℤ
crash_budget s = or_default default_max_consecutive_crashes s.max_consecutive_crashes

unfoldable pub wants_pdeathsig : Service → Bool
wants_pdeathsig s = or_default true s.pdeathsig

unfoldable pub is_reloadable : Service → Bool
is_reloadable s = or_default true s.reloadable

pub record FileError : Type 0 where
  pub file : String
  pub error : String

-- [resources]; the CPUs are thousandths for the float64 of the code.
pub record ResourcesBlock : Type 0 where
  pub reserve_cpu : ℤ
  pub reserve_memory : ℕ
  pub scale_up_after : Duration
  pub scale_down_after : Duration
  pub poll_interval : Duration

pub record Globals : Type 0 where
  pub entrypoint_on_failure : String
  pub entrypoint_script_timeout : Duration
  pub boot_timeout : Duration
  pub default_stop_signal : String
  pub default_stop_timeout : Duration
  pub exit_code_from : String
  pub control_socket : String
  pub env : StringMap
  pub resources : ResourcesBlock

pub record Config : Type 0 where
  pub globals : Globals
  pub services : List Service
  pub skipped_files : List FileError

abbrev pub is_nonempty {ℓ} : {A : Type ℓ} → List A → Bool
is_nonempty [] = false
is_nonempty (x ∷ xs) = true

-- a loop over Services that returns at the first consumer of resource changes
unfoldable pub any_watches : List Service → Bool
any_watches [] = false
any_watches (s ∷ rest) =
    s.replicas.auto || is_nonempty (or_default [] s.reload_on_change) || any_watches rest

unfoldable pub needs_resource_watch : Config → Bool
unfolding any_watches
needs_resource_watch c = any_watches c.services
