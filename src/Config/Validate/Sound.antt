-- ===== src/Config/Validate/Sound.antt =====
-- internal/config/load.go: which configurations validate accepts.
use zpinit.Base.{String, ◌≡◌, refl, ◌⊎◌, ◌↔◌, true, false, not, ◌&&◌, List, [], ◌∷◌, map, arith}
use zpinit.Base.Int.{ℤ, pos, ltb_ℤ, ◌≤ℤ◌}
use zpinit.Base.Texts.{str_eq}
use zpinit.Config.Types.{Service, Config, StringMap}
use zpinit.Config.Validate.Service.{is_signal_name, check_env}
use zpinit.Config.Validate.Checks.{
  IsEnvEntry, when_lem, and_then, negated, neither_lem, check_env_lem,
}
use zpinit.Config.Validate.Whole.{
  bad_entrypoint_on_failure, bad_default_stop_signal, relative_control_socket, negative_setting,
  env_error, find_file, check_names, check_settings, settings, is_abs, validate,
}
use zpinit.Config.Validate.Unique.{AreUnique, AreFresh, check_names_lem}
use zpinit.Config.Validate.Exit.{HasExit, exit_lem}
use zpinit.Supervisor.Replica.Expand.{All}

-- What a configuration must satisfy.
pub record IsSound (cfg : Config) : Type 0 where
  pub on_failure :
      (cfg.globals.entrypoint_on_failure ≡ "fail")
      ⊎ (cfg.globals.entrypoint_on_failure ≡ "continue")
  pub stop_signal : is_signal_name cfg.globals.default_stop_signal ≡ true
  pub socket : is_abs cfg.globals.control_socket ≡ true
  pub env : All IsEnvEntry cfg.globals.env
  pub reserve_cpu : pos 0 ≤ℤ cfg.globals.resources.reserve_cpu
  pub scale_up_after : pos 0 ≤ℤ cfg.globals.resources.scale_up_after
  pub scale_down_after : pos 0 ≤ℤ cfg.globals.resources.scale_down_after
  pub poll_interval : pos 0 ≤ℤ cfg.globals.resources.poll_interval
  pub boot_timeout : pos 0 ≤ℤ cfg.globals.boot_timeout
  pub script_timeout : pos 0 ≤ℤ cfg.globals.entrypoint_script_timeout
  pub unique : AreUnique cfg.services
  pub exit : HasExit cfg

check_settings_lem :
    (l : List (String × ℤ)) → (check_settings l ≡ []) ↔ All (λ ((n, v) : String × ℤ). pos 0 ≤ℤ v) l
unfolding check_settings
check_settings_lem [] = (λ h. tt, λ h. refl)
check_settings_lem ((n, v) ∷ rest) =
    let sign : (ltb_ℤ v (pos 0) ≡ false) ↔ (pos 0 ≤ℤ v) = (λ h. ground arith, λ h. ground arith) in
    let first = when_lem (ltb_ℤ v (pos 0)) (negative_setting n) in
    and_then (λ h. sign.0 (first.0 h), λ h. first.1 (sign.1 h)) (check_settings_lem rest)

map-nil {ℓ κ} : {A : Type ℓ} {B : Type κ} (f : A → B) (xs : List A) → (map f xs ≡ []) ↔ (xs ≡ [])
map-nil f [] = (λ h. refl, λ h. refl)
map-nil f (x ∷ xs) = (λ h. absurd (cc h), λ h. absurd (cc h))

nothing_seen : (ss : List Service) → AreFresh [] ss
unfolding find_file
nothing_seen [] = tt
nothing_seen (s ∷ rest) = (refl, nothing_seen rest)

-- Validation of the whole config finds no error exactly if all of this holds. Each choice and path of
-- the globals has its form and the default stop signal is a signal's name; each key of the global [env]
-- has its form and is not reserved; reserve_cpu, scale_up_after,
-- scale_down_after, poll_interval, boot_timeout and entrypoint_script_timeout are not negative; no two
-- services have one name; exit_code_from is `default`, or some service has that name and each that has it
-- is not "auto" and has at most one replica.
pub validate_accepts : (cfg : Config) → (validate cfg ≡ []) ↔ IsSound cfg
unfolding validate
validate_accepts cfg =
    let g = cfg.globals in
    let on_failure =
      when_lem
        (not (str_eq g.entrypoint_on_failure "fail")
          && not (str_eq g.entrypoint_on_failure "continue"))
        (bad_entrypoint_on_failure g.entrypoint_on_failure) in
    let stop_signal =
      when_lem (not (is_signal_name g.default_stop_signal))
        (bad_default_stop_signal g.default_stop_signal) in
    let socket =
      when_lem (not (is_abs g.control_socket)) (relative_control_socket g.control_socket) in
    let whole =
      and_then
        (and_then
          (and_then (and_then (and_then (and_then on_failure stop_signal) socket) (env_lem g.env))
            (check_settings_lem (settings cfg)))
          (unique_lem cfg.services))
        (exit_lem cfg) in
    let choice = neither_lem g.entrypoint_on_failure "fail" "continue" in
    (
      λ h.
          let ((((((a, b), c), d), e), f), x) = whole.0 h in
          record {
            on_failure = choice.0 a;
            stop_signal = (negated (is_signal_name g.default_stop_signal)).0 b;
            socket = (negated (is_abs g.control_socket)).0 c;
            env = d;
            reserve_cpu = e.0;
            scale_up_after = e.1.0;
            scale_down_after = e.1.1.0;
            poll_interval = e.1.1.1.0;
            boot_timeout = e.1.1.1.1.0;
            script_timeout = e.1.1.1.1.1.0;
            unique = f;
            exit = x;
          },
      λ q. whole.1 (
          (
            (
              (
                (
                  (
                    (
                      choice.1 q.on_failure,
                      (negated (is_signal_name g.default_stop_signal)).1 q.stop_signal,
                    ),
                    (negated (is_abs g.control_socket)).1 q.socket,
                  ),
                  q.env,
                ),
                (
                  q.reserve_cpu,
                  (
                    q.scale_up_after,
                    (
                      q.scale_down_after,
                      (q.poll_interval, (q.boot_timeout, (q.script_timeout, tt))),
                    ),
                  ),
                ),
              ),
              q.unique,
            ),
            q.exit,
          )),
    )
  where
    env_lem : (env : StringMap) → (map env_error (check_env env) ≡ []) ↔ All IsEnvEntry env
    env_lem env =
        let nil = map-nil env_error (check_env env) in
        let l = check_env_lem env in (λ h. l.0 (nil.0 h), λ h. nil.1 (l.1 h))

    unique_lem : (ss : List Service) → ((check_names [] ss).0 ≡ []) ↔ AreUnique ss
    unique_lem ss = let l = check_names_lem [] ss in (λ h. (l.0 h).1, λ h. l.1 (nothing_seen ss, h))
