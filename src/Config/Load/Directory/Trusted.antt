-- ===== src/Config/Load/Directory/Trusted.antt =====
-- internal/config/load.go: what a configuration that Load returns can be trusted to satisfy.
use zpinit.Base.{◌≡◌, refl, sym, inl, inr, false, List, [], ◌∷◌, arith, Bool-cases}
use mathlib.Core.Path.{subst}
use zpinit.Config.Types.{Service, FileError, Globals, Config}
use zpinit.Config.Defaults.{apply_global_defaults}
use zpinit.Config.Validate.Accepted.{IsAccepted, validate_service_accepts}
use zpinit.Config.Validate.Whole.{
  ConfigError, check_settings, check_names, check_exit_code_from, validate,
}
use zpinit.Base.Texts.{has_prefix}
use zpinit.Config.Validate.Sound.{IsSound, validate_accepts}
use zpinit.Config.Load.{Decoder, load_services, ServiceFileInfo, scan_service_files, sort_entries}
use zpinit.Config.Load.Resolved.{Resolved, enabled_only, load_services-Resolved}
use zpinit.Config.Load.Directory.{
  Directory, ServicesDir, no_services, unreadable_services, service_files, GlobalsFile, no_globals,
  unreadable_globals, globals_file, StatResult, not_found, is_file, is_directory, loaded_config,
  empty_config, zero_globals, accept, with_entrypoint, with_services, with_globals, at_path, load,
  new_empty,
}
use zpinit.Supervisor.Replica.Expand.{All}

Resolved-IsAccepted :
    (d : Decoder) (g : Globals) (infos : List ServiceFileInfo) (ss : List Service)
    (fs : List FileError)
    → Resolved d g infos ss fs
    → All IsAccepted ss
Resolved-IsAccepted d g [] ss fs (e, k) = rw e tt
Resolved-IsAccepted d g (i ∷ rest) ss fs (inl (s, more, e, n, f, (file, c, u, w, v), r)) =
    rw e ((validate_service_accepts s).0 v, Resolved-IsAccepted d g rest more fs r)
Resolved-IsAccepted d g (i ∷ rest) ss fs (inr (x, more, e, f, why, r)) =
    Resolved-IsAccepted d g rest ss more r

-- What the config is trusted to satisfy.
abbrev pub IsTrusted : Config → Type 0
IsTrusted cfg = IsSound cfg × All IsAccepted cfg.services

accept-IsSound :
    (cfg out : Config) (errs : List ConfigError)
    → validate cfg ≡ errs
    → accept cfg errs ≡ loaded_config out
    → (out ≡ cfg) × IsSound cfg
accept-IsSound cfg out [] v h = (ground (arith, h), (validate_accepts cfg).0 v)
accept-IsSound cfg out (e ∷ errs) v h = absurd (cc h)

entrypoint-IsTrusted :
    (dir : Directory) (cfg out : Config)
    → All IsAccepted cfg.services
    → with_entrypoint dir cfg ≡ loaded_config out
    → IsTrusted out
entrypoint-IsTrusted dir cfg out a h = elim (Bool-cases dir.scan_failed) [
  | inl e ↦ absurd (ground (arith, e, h))
  | inr e ↦
      let (same, sound) = accept-IsSound cfg out (validate cfg) refl (passed e) in
      subst IsTrusted (sym same) (sound, a)
]
  where
    passed : dir.scan_failed ≡ false → accept cfg (validate cfg) ≡ loaded_config out
    passed e = ground (arith, e, h)

services-IsTrusted :
    (d : Decoder) (dir : Directory) (g : Globals) (out : Config) (s : ServicesDir)
    → with_services d dir (empty_config g) s ≡ loaded_config out
    → IsTrusted out
services-IsTrusted d dir g out no_services h = entrypoint-IsTrusted dir (empty_config g) out tt h
services-IsTrusted d dir g out unreadable_services h = absurd (cc h)
services-IsTrusted d dir g out (service_files entries) h =
    let cfg = empty_config g in
    let resolved = (load_services-Resolved d entries cfg refl refl).0 in
    entrypoint-IsTrusted dir (load_services d entries cfg) out
      (Resolved-IsAccepted d g (enabled_only (scan_service_files d (sort_entries entries)))
        (load_services d entries cfg).services (load_services d entries cfg).skipped_files resolved)
      h

globals-IsTrusted :
    (d : Decoder) (dir : Directory) (out : Config) (g : GlobalsFile)
    → with_globals d dir g ≡ loaded_config out
    → IsTrusted out
globals-IsTrusted d dir out no_globals h =
    services-IsTrusted d dir (apply_global_defaults zero_globals) out dir.services h
globals-IsTrusted d dir out unreadable_globals h = absurd (cc h)
globals-IsTrusted d dir out (globals_file g (k ∷ keys)) h = absurd (cc h)
globals-IsTrusted d dir out (globals_file g []) h =
    services-IsTrusted d dir (apply_global_defaults g) out dir.services h

path-IsTrusted :
    (d : Decoder) (dir : Directory) (out : Config) (s : StatResult)
    → at_path d dir s ≡ loaded_config out
    → IsTrusted out
path-IsTrusted d dir out not_found h = absurd (cc h)
path-IsTrusted d dir out is_file h = absurd (cc h)
path-IsTrusted d dir out is_directory h = globals-IsTrusted d dir out dir.globals h

no_errors : validate new_empty ≡ []
unfolding validate new_empty has_prefix check_settings check_names check_exit_code_from
no_errors = refl

-- The config without a directory is one of them.
pub new_empty-IsTrusted : IsTrusted new_empty
new_empty-IsTrusted = ((validate_accepts new_empty).0 no_errors, unfold new_empty in tt)

-- A config that Load returns can be trusted, whatever the files hold: it passes the checks of the whole
-- config, so its names are unique and exit_code_from is one process, and every service in it, with its
-- defaults applied, is one that the validation of services accepts.
pub load-IsTrusted :
    (d : Decoder) (dir : Directory) (cfg : Config) → load d dir ≡ loaded_config cfg → IsTrusted cfg
unfolding load
load-IsTrusted d dir cfg h = path-IsTrusted d dir cfg dir.stat h
