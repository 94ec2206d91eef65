-- ===== src/Config/Validate/Whole.antt =====
-- internal/config/load.go: validate, the checks of the globals and of the services together.
use zpinit.Base.{
  String, Bool, not, ◌&&◌, Option, none, some, List, [], ◌∷◌, ◌++◌, map, if◌then◌else◌,
}
use zpinit.Base.Int.{ℤ, pos, ltb_ℤ}
use zpinit.Base.Texts.{str_eq, has_prefix}
use zpinit.Config.Types.{Service, FileError, Config}
use zpinit.Config.Validate.Service.{ServiceError, is_signal_name, check_env, when}

pub data ConfigError : Type 0 where
  bad_entrypoint_on_failure bad_default_stop_signal relative_control_socket : String → ConfigError
  negative_setting : String → ConfigError
  env_error : ServiceError → ConfigError
  name_collision : String → String → String → ConfigError
  unknown_exit_code_from : String → List String → ConfigError
  auto_exit_code_from : String → ConfigError
  replicated_exit_code_from : String → ℤ → ConfigError

-- nameToFile
abbrev pub NameToFile : Type 0
NameToFile = List (String × String)

unfoldable pub find_file : String → NameToFile → Option String
find_file name [] = none
find_file name ((n, file) ∷ rest) = if str_eq n name then some file else find_file name rest

-- the collisions of the names, and the map of the first file of each
unfoldable pub check_names : NameToFile → List Service → List ConfigError × NameToFile
unfolding find_file
check_names seen [] = ([], seen)
check_names seen (s ∷ rest) = elim (find_file s.name seen) [
  | none ↦ check_names ((s.name, s.filename) ∷ seen) rest
  | some other ↦
      let (errs, names) = check_names seen rest in
      (name_collision other s.filename s.name ∷ errs, names)
]

-- a service that has the name is one process
unfoldable pub check_single : String → List Service → List ConfigError
check_single name [] = []
check_single name (s ∷ rest) =
    let more = check_single name rest in
    if not (str_eq s.name name)
    then more
    else if s.replicas.auto
    then auto_exit_code_from name ∷ []
    else if ltb_ℤ (pos 1) s.replicas.n
    then replicated_exit_code_from name s.replicas.n ∷ []
    else more

abbrev pub file_names : List FileError → List String
file_names [] = []
file_names (f ∷ rest) = f.file ∷ file_names rest

abbrev pub known_exit : Config → Option String → List ConfigError
known_exit cfg none =
    unknown_exit_code_from cfg.globals.exit_code_from (file_names cfg.skipped_files) ∷ []
known_exit cfg (some file) = check_single cfg.globals.exit_code_from cfg.services

unfoldable pub check_exit_code_from : Config → NameToFile → List ConfigError
unfolding find_file check_single
check_exit_code_from cfg names =
    if str_eq cfg.globals.exit_code_from "default"
    then []
    else known_exit cfg (find_file cfg.globals.exit_code_from names)

unfoldable pub check_settings : List (String × ℤ) → List ConfigError
check_settings [] = []
check_settings ((name, v) ∷ rest) =
    when (ltb_ℤ v (pos 0)) (negative_setting name) ++ check_settings rest

abbrev pub settings : Config → List (String × ℤ)
settings cfg =
    ("reserve_cpu", cfg.globals.resources.reserve_cpu)
    ∷ ("scale_up_after", cfg.globals.resources.scale_up_after)
    ∷ ("scale_down_after", cfg.globals.resources.scale_down_after)
    ∷ ("poll_interval", cfg.globals.resources.poll_interval)
    ∷ ("boot_timeout", cfg.globals.boot_timeout)
    ∷ ("entrypoint_script_timeout", cfg.globals.entrypoint_script_timeout)
    ∷ []

-- filepath.IsAbs on Unix
abbrev pub is_abs : String → Bool
is_abs path = has_prefix "/" path

unfoldable pub validate : Config → List ConfigError
unfolding is_signal_name check_env
validate cfg =
    let g = cfg.globals in
    when
      (not (str_eq g.entrypoint_on_failure "fail")
        && not (str_eq g.entrypoint_on_failure "continue"))
      (bad_entrypoint_on_failure g.entrypoint_on_failure)
    ++ when (not (is_signal_name g.default_stop_signal))
        (bad_default_stop_signal g.default_stop_signal)
    ++ when (not (is_abs g.control_socket)) (relative_control_socket g.control_socket)
    ++ map env_error (check_env g.env)
    ++ check_settings (settings cfg)
    ++ (check_names [] cfg.services).0
    ++ check_exit_code_from cfg (check_names [] cfg.services).1
