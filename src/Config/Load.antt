-- ===== src/Config/Load.antt =====
-- internal/config/load.go: the service files of a directory, loaded and listed. The decoder of TOML and
-- the texts of its errors are the parameter Decoder.
pub mod Resolved
pub mod Directory
use zpinit.Base.{
  String, Bool, true, false, not, ◌&&◌, ◌||◌, Option, none, some, List, [], ◌∷◌, ◌++◌, leb,
  if◌then◌else◌,
}
use Prim.Native.Char.{code}
use zpinit.Base.Texts.{str_eq, has_prefix, text_ltb}
use zpinit.Config.Types.{Service, Globals, FileError, Config}
use zpinit.Config.Defaults.{apply_service_defaults}
use zpinit.Config.Validate.Service.{ServiceError, is_digit, validate_service}

-- strings.HasSuffix and TrimSuffix, with the suffix first
unfoldable pub has_suffix : String → String → Bool
has_suffix suf String.[] = str_eq String.[] suf
has_suffix suf (String.◌∷◌ c s) = str_eq (String.◌∷◌ c s) suf || has_suffix suf s

unfoldable pub trim_suffix : String → String → String
trim_suffix suf String.[] = String.[]
trim_suffix suf (String.◌∷◌ c s) =
    if str_eq (String.◌∷◌ c s) suf then String.[] else String.◌∷◌ c (trim_suffix suf s)

abbrev drop_separator : String → String
drop_separator String.[] = String.[]
drop_separator (String.◌∷◌ c s) =
    if str_eq (String.◌∷◌ c String.[]) "-" || str_eq (String.◌∷◌ c String.[]) "_"
    then s
    else String.◌∷◌ c s

-- what follows the digits
unfoldable pub after_digits : String → String
after_digits String.[] = String.[]
after_digits (String.◌∷◌ c s) = elim (is_digit (code c)) [
  | true ↦ after_digits s
  | false ↦ drop_separator (String.◌∷◌ c s)
]

-- ^\d+[-_]? replaced by nothing
abbrev pub prefix_strip : String → String
prefix_strip String.[] = String.[]
prefix_strip (String.◌∷◌ c s) = if is_digit (code c) then after_digits s else String.◌∷◌ c s

unfoldable pub name_from_filename : String → String
unfolding trim_suffix after_digits
name_from_filename filename = prefix_strip (trim_suffix ".toml" filename)

-- What a decoded file holds: the keys that it sets, the keys that no field has, and whether it has
-- reload_on_change.
pub record Decoded : Type 0 where
  pub service : Service
  pub undecoded : List String
  pub reload_on_change_set : Bool

pub data LoadError : Type 0 where
  decode_failed : LoadError
  unknown_keys : List String → LoadError
  invalid : List ServiceError → LoadError

pub record Decoder : Type 0 where
  pub decode_file : String → Option Decoded
  pub message : LoadError → String

pub data LoadedFile : Type 0 where
  loaded : Service → LoadedFile
  refused : LoadError → LoadedFile

abbrev pub checked : Service → List ServiceError → LoadedFile
checked s [] = loaded s
checked s (e ∷ errs) = refused (invalid (e ∷ errs))

abbrev pub named_service : String → Service → Service
named_service name s = record s {
  filename = name;
  name = if str_eq s.name "" then name_from_filename name else s.name;
}

abbrev pub finish_file : String → Globals → Decoded → List String → LoadedFile
finish_file name g d (k ∷ keys) = refused (unknown_keys (k ∷ keys))
finish_file name g d [] =
    let s = apply_service_defaults (named_service name d.service) g d.reload_on_change_set in
    checked s (validate_service s)

unfoldable pub load_service_file : Decoder → Globals → String → LoadedFile
load_service_file d g name = elim (d.decode_file name) [
  | none ↦ refused decode_failed
  | some file ↦ finish_file name g file file.undecoded
]

pub record DirEntry : Type 0 where
  pub name : String
  pub is_dir : Bool

-- not a directory, hidden or disabled, and with the suffix of a service file
abbrev pub is_service_file : DirEntry → Bool
is_service_file e =
    not e.is_dir
    && not (has_prefix "." e.name || has_suffix ".disabled" e.name)
    && has_suffix ".toml" e.name

abbrev pub add_file :
    Decoder → String → LoadedFile → List Service × List FileError → List Service × List FileError
add_file d name (loaded s) (services, skipped) = (s ∷ services, skipped)
add_file d name (refused e) (services, skipped) =
    (services, record { file = name; error = d.message e } ∷ skipped)

-- the loop over the sorted entries
unfoldable pub load_entries : Decoder → Globals → List DirEntry → List Service × List FileError
unfolding load_service_file has_suffix
load_entries d g [] = ([], [])
load_entries d g (e ∷ rest) =
    let more = load_entries d g rest in
    if is_service_file e then add_file d e.name (load_service_file d g e.name) more else more

unfoldable pub insert_entry : DirEntry → List DirEntry → List DirEntry
unfolding text_ltb
insert_entry e [] = e ∷ []
insert_entry e (f ∷ rest) =
    let later = insert_entry e rest in if text_ltb f.name e.name then f ∷ later else e ∷ f ∷ rest

unfoldable pub sort_entries : List DirEntry → List DirEntry
unfolding insert_entry
sort_entries [] = []
sort_entries (e ∷ rest) = insert_entry e (sort_entries rest)

abbrev pub with_files : Config → List Service × List FileError → Config
with_files cfg (services, skipped) = record cfg {
  services = cfg.services ++ services;
  skipped_files = cfg.skipped_files ++ skipped;
}

unfoldable pub load_services : Decoder → List DirEntry → Config → Config
unfolding load_entries sort_entries
load_services d entries cfg = with_files cfg (load_entries d cfg.globals (sort_entries entries))

pub record ServiceFileInfo : Type 0 where
  pub name : String
  pub path : String
  pub enabled : Bool

abbrev pub name_or : String → Option Decoded → String
name_or toml_filename none = name_from_filename toml_filename
name_or toml_filename (some d) =
    if str_eq d.service.name "" then name_from_filename toml_filename else d.service.name

-- The file at a path is decoded; the name without `.disabled` is the one to fall back to.
unfoldable pub service_name_for_file : Decoder → String → String → String
unfolding name_from_filename
service_name_for_file d path toml_filename = name_or toml_filename (d.decode_file path)

abbrev pub is_enabled : String → Bool
is_enabled name = not (has_suffix ".disabled" name)

abbrev pub toml_name : String → String
toml_name name = if is_enabled name then name else trim_suffix ".disabled" name

abbrev pub is_listed : DirEntry → Bool
is_listed e = not e.is_dir && not (has_prefix "." e.name) && has_suffix ".toml" (toml_name e.name)

abbrev pub file_info : Decoder → String → ServiceFileInfo
file_info d name = record {
  name = service_name_for_file d name (toml_name name);
  path = name;
  enabled = is_enabled name;
}

-- The entries come in the order of their names, as os.ReadDir gives them. A path is the name in the
-- directory.
unfoldable pub scan_service_files : Decoder → List DirEntry → List ServiceFileInfo
unfolding service_name_for_file has_suffix trim_suffix
scan_service_files d [] = []
scan_service_files d (e ∷ rest) =
    let more = scan_service_files d rest in if is_listed e then file_info d e.name ∷ more else more
