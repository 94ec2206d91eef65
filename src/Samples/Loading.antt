-- ===== src/Samples/Loading.antt =====
-- A directory of service files, loaded.
use zpinit.Base.{String, ◌≡◌, ◌↔◌, refl, false, none, some, List, [], ◌∷◌, if◌then◌else◌, Option}
use zpinit.Base.Texts.{str_eq}
use zpinit.Config.Types.{Config}
use zpinit.Config.Validate.Whole.{validate}
use zpinit.Config.Validate.Sound.{IsSound, validate_accepts}
use zpinit.Config.Load.{Decoded, Decoder, DirEntry, load_services, scan_service_files, sort_entries}
use zpinit.Config.Load.Resolved.{Resolved, enabled_only, load_services-Resolved}
use zpinit.Config.Load.Directory.{
  Directory, is_directory, no_globals, service_files, loaded_config, load, zero_globals,
  empty_config,
}
use zpinit.Config.Load.Directory.Trusted.{IsTrusted, load-IsTrusted}
use zpinit.Config.Defaults.{apply_global_defaults}
use zpinit.Samples.Data.{web, config}
use zpinit.Base.Texts.{has_prefix}
use zpinit.Config.Validate.Service.{validate_service}
use zpinit.Config.Validate.Service.{matches_name}
use zpinit.Config.Defaults.{apply_service_defaults}
use zpinit.Config.Load.{name_from_filename}
use zpinit.Config.Validate.Service.{is_signal_name}
use zpinit.Config.Validate.Service.{check_bounds}
use zpinit.Config.Validate.Service.{check_crash_budget}
use zpinit.Config.Validate.Service.{check_reload}
use zpinit.Config.Validate.Service.{check_dimensions}
use zpinit.Config.Validate.Service.{check_env}
use zpinit.Config.Validate.Service.{check_ready}
use zpinit.Config.Validate.Service.{check_durations}
use zpinit.Config.Validate.Whole.{check_settings}
use zpinit.Config.Validate.Whole.{check_names}
use zpinit.Config.Validate.Whole.{check_exit_code_from}

abbrev decode : String → Option Decoded
decode name =
    if str_eq name "10-web.toml"
    then some (record {
      service = record web { name = "" };
      undecoded = [];
      reload_on_change_set = false;
    })
    else none

abbrev decoder : Decoder
decoder = record { decode_file = decode; message = λ e. "refused" }

abbrev entry : String → DirEntry
entry name = record { name = name; is_dir = false }

-- one file that decodes, one that does not, one that is parked, and one that is hidden
abbrev entries : List DirEntry
entries =
    entry "20-broken.toml"
    ∷ entry "10-web.toml"
    ∷ entry "old.toml.disabled"
    ∷ entry ".swap.toml"
    ∷ []

abbrev directory : Directory
directory = record {
  stat = is_directory;
  globals = no_globals;
  services = service_files entries;
  scan_failed = false;
}

abbrev start_config : Config
start_config = config []

abbrev after_load : Config
after_load = load_services decoder entries start_config

one_service : after_load.services ≡ record web { filename = "10-web.toml"; name = "web" } ∷ []
unfolding load_services has_prefix validate_service matches_name apply_service_defaults
    name_from_filename is_signal_name check_bounds check_crash_budget check_reload check_dimensions
    check_env check_ready check_durations
one_service = refl

load_services-Resolved_example :
    Resolved decoder start_config.globals
      (enabled_only (scan_service_files decoder (sort_entries entries)))
      after_load.services
      after_load.skipped_files
    × (after_load.globals ≡ start_config.globals)
load_services-Resolved_example = load_services-Resolved decoder entries start_config refl refl

abbrev default_config : Config
default_config = load_services decoder entries (empty_config (apply_global_defaults zero_globals))

loads : load decoder directory ≡ loaded_config default_config
unfolding load has_prefix check_settings check_names validate_service matches_name
    apply_service_defaults name_from_filename check_bounds check_crash_budget check_reload
    check_dimensions check_ready check_durations check_exit_code_from
loads = refl

load-IsTrusted_example : IsTrusted default_config
load-IsTrusted_example = load-IsTrusted decoder directory default_config loads

validate_accepts_example :
    (validate (config (web ∷ web ∷ [])) ≡ []) ↔ IsSound (config (web ∷ web ∷ []))
validate_accepts_example = validate_accepts (config (web ∷ web ∷ []))
