-- ===== src/Config/Load/Directory.antt =====
-- internal/config/load.go: Load and NewEmpty, over what the directory holds.
pub mod Trusted
use zpinit.Base.{String, Bool, true, false, Option, none, some, List, [], ◌∷◌, if◌then◌else◌}
use zpinit.Base.Int.{pos}
use zpinit.Config.Types.{ResourcesBlock, Globals, Config}
use zpinit.Config.Defaults.{apply_global_defaults}
use zpinit.Config.Validate.Whole.{ConfigError, validate}
use zpinit.Config.Load.{Decoder, DirEntry, load_services}

-- the zero value that Load starts from
abbrev pub zero_globals : Globals
zero_globals = record {
  entrypoint_on_failure = "";
  entrypoint_script_timeout = pos 0;
  boot_timeout = pos 0;
  default_stop_signal = "";
  default_stop_timeout = pos 0;
  exit_code_from = "";
  control_socket = "";
  env = [];
  resources = record {
    reserve_cpu = pos 0;
    reserve_memory = 0;
    scale_up_after = pos 0;
    scale_down_after = pos 0;
    poll_interval = pos 0;
  };
}

pub data StatResult : Type 0 where
  not_found is_file is_directory : StatResult

-- zpinit.toml: not there, not readable, or its globals with the keys that no field has
pub data GlobalsFile : Type 0 where
  no_globals unreadable_globals : GlobalsFile
  globals_file : Globals → List String → GlobalsFile

-- the directory services
pub data ServicesDir : Type 0 where
  no_services unreadable_services : ServicesDir
  service_files : List DirEntry → ServicesDir

-- What the directory holds; `scan_failed` is the error of the scan of entrypoint.d, whose warnings are
-- left out.
pub record Directory : Type 0 where
  pub stat : StatResult
  pub globals : GlobalsFile
  pub services : ServicesDir
  pub scan_failed : Bool

pub data LoadFailure : Type 0 where
  dir_missing dir_is_file globals_unreadable services_unreadable entrypoint_unreadable : LoadFailure
  unknown_globals : List String → LoadFailure
  validation_failed : List ConfigError → LoadFailure

pub data LoadResult : Type 0 where
  loaded_config : Config → LoadResult
  load_failed : LoadFailure → LoadResult

abbrev pub empty_config : Globals → Config
empty_config g = record { globals = g; services = []; skipped_files = [] }

unfoldable pub new_empty : Config
unfolding apply_global_defaults
new_empty = empty_config (apply_global_defaults zero_globals)

abbrev pub accept : Config → List ConfigError → LoadResult
accept cfg [] = loaded_config cfg
accept cfg (e ∷ errs) = load_failed (validation_failed (e ∷ errs))

abbrev pub with_entrypoint : Directory → Config → LoadResult
with_entrypoint dir cfg =
    if dir.scan_failed then load_failed entrypoint_unreadable else accept cfg (validate cfg)

abbrev pub with_services : Decoder → Directory → Config → ServicesDir → LoadResult
with_services d dir cfg no_services = with_entrypoint dir cfg
with_services d dir cfg unreadable_services = load_failed services_unreadable
with_services d dir cfg (service_files entries) = with_entrypoint dir (load_services d entries cfg)

abbrev pub with_globals : Decoder → Directory → GlobalsFile → LoadResult
with_globals d dir unreadable_globals = load_failed globals_unreadable
with_globals d dir no_globals =
    with_services d dir (empty_config (apply_global_defaults zero_globals)) dir.services
with_globals d dir (globals_file g (k ∷ keys)) = load_failed (unknown_globals (k ∷ keys))
with_globals d dir (globals_file g []) =
    with_services d dir (empty_config (apply_global_defaults g)) dir.services

abbrev pub at_path : Decoder → Directory → StatResult → LoadResult
at_path d dir not_found = load_failed dir_missing
at_path d dir is_file = load_failed dir_is_file
at_path d dir is_directory = with_globals d dir dir.globals

unfoldable pub load : Decoder → Directory → LoadResult
unfolding load_services validate apply_global_defaults
load d dir = at_path d dir dir.stat
