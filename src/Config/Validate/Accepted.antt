-- ===== src/Config/Validate/Accepted.antt =====
-- internal/config/load.go: which services validateService accepts, and that the defaults of a service
-- file are among them.
use zpinit.Base.{String, ◌≡◌, ◌⊎◌, ◌↔◌, inl, inr, true, false, not, ◌&&◌, List, [], ◌∷◌, arith}
use zpinit.Base.Int.{pos, ◌≤ℤ◌}
use zpinit.Base.Texts.{str_eq, str_eq-eq, str_eq_self}
use zpinit.Config.Types.{
  Duration, Service, or_default, is_nonempty, restart_always, restart_on_failure, restart_never,
  boot_fail, boot_continue,
}
use zpinit.Config.Validate.Service.{
  bad_name, command_required, bad_restart, bad_on_boot_failure, bad_stop_signal, matches_name,
  is_signal_name, validate_service,
}
use zpinit.Config.Validate.Checks.{
  HasBounds, HasReload, HasReady, IsAtLeastZero, IsDimension, IsEnvEntry, when_lem, and_then,
  negated, neither_lem, check_bounds_lem, check_crash_budget_lem, check_reload_lem, check_ready_lem,
  check_dimensions_lem, check_env_lem, check_durations_lem,
}
use zpinit.Supervisor.Replica.Expand.{All}

abbrev durations : Service → List (String × Duration)
durations s =
    ("stop_timeout", s.stop_timeout)
    ∷ ("backoff_initial", s.backoff_initial)
    ∷ ("backoff_max", s.backoff_max)
    ∷ ("backoff_reset_after", s.backoff_reset_after)
    ∷ []

-- What a service must satisfy.
pub record IsAccepted (s : Service) : Type 0 where
  pub name : matches_name s.name ≡ true
  pub command : is_nonempty (or_default [] s.command) ≡ true
  pub restart :
      (s.restart ≡ restart_always) ⊎ (s.restart ≡ restart_on_failure) ⊎ (s.restart ≡ restart_never)
  pub on_boot : (s.on_boot_failure ≡ boot_fail) ⊎ (s.on_boot_failure ≡ boot_continue)
  pub stop_signal : is_signal_name s.stop_signal ≡ true
  pub bounds : HasBounds s
  pub crash_budget : IsAtLeastZero s.max_consecutive_crashes
  pub reload : HasReload s
  pub dimensions : All IsDimension (or_default [] s.reload_on_change)
  pub env : All IsEnvEntry (or_default [] s.env)
  pub ready : HasReady s.ready
  pub stop_timeout : pos 0 ≤ℤ s.stop_timeout
  pub backoff_initial : pos 0 ≤ℤ s.backoff_initial
  pub backoff_max : pos 0 ≤ℤ s.backoff_max
  pub backoff_reset_after : pos 0 ≤ℤ s.backoff_reset_after

one_of_three :
    (t a b c : String)
    → (not (str_eq t a) && not (str_eq t b) && not (str_eq t c) ≡ false)
      ↔ ((t ≡ a) ⊎ (t ≡ b) ⊎ (t ≡ c))
one_of_three t a b c = (
  λ h. ground (arith, str_eq-eq t a, str_eq-eq t b, str_eq-eq t c),
  λ h. elim h [
    | inl e ↦ rw e (ground (arith, str_eq_self a))
    | inr (inl e) ↦ rw e (ground (arith, str_eq_self b))
    | inr (inr e) ↦ rw e (ground (arith, str_eq_self c))
  ],
)

-- Validation finds no error exactly if the service is accepted: its name and the keys of its [env] have
-- their form, no key is reserved, there is a command, each choice is one of its words and each signal a
-- signal's name, the replicas and their bounds fit, reload_signal excludes reload_command, [ready] has a
-- command, and no duration and no crash budget is negative.
pub validate_service_accepts : (s : Service) → (validate_service s ≡ []) ↔ IsAccepted s
unfolding validate_service
validate_service_accepts s =
    let name = when_lem (not (matches_name s.name)) (bad_name s.name) in
    let command = when_lem (not (is_nonempty (or_default [] s.command))) command_required in
    let restart =
      when_lem
        (not (str_eq s.restart restart_always)
          && not (str_eq s.restart restart_on_failure)
          && not (str_eq s.restart restart_never))
        (bad_restart s.restart) in
    let on_boot =
      when_lem
        (not (str_eq s.on_boot_failure boot_fail) && not (str_eq s.on_boot_failure boot_continue))
        (bad_on_boot_failure s.on_boot_failure) in
    let stop_signal =
      when_lem (not (is_signal_name s.stop_signal)) (bad_stop_signal s.stop_signal) in
    let first =
      and_then (and_then (and_then (and_then name command) restart) on_boot) stop_signal in
    let whole =
      and_then
        (and_then
          (and_then
            (and_then
              (and_then
                (and_then (and_then first (check_bounds_lem s))
                  (check_crash_budget_lem s.max_consecutive_crashes))
                (check_reload_lem s))
              (check_dimensions_lem (or_default [] s.reload_on_change)))
            (check_env_lem (or_default [] s.env)))
          (check_ready_lem s.ready))
        (check_durations_lem (durations s)) in
    let policy = one_of_three s.restart restart_always restart_on_failure restart_never in
    let boot = neither_lem s.on_boot_failure boot_fail boot_continue in
    (
      λ h.
          let (((((((((((a, b), c), d), e), f), g), i), j), k), l), m) = whole.0 h in
          record {
            name = (negated (matches_name s.name)).0 a;
            command = (negated (is_nonempty (or_default [] s.command))).0 b;
            restart = policy.0 c;
            on_boot = boot.0 d;
            stop_signal = (negated (is_signal_name s.stop_signal)).0 e;
            bounds = f;
            crash_budget = g;
            reload = i;
            dimensions = j;
            env = k;
            ready = l;
            stop_timeout = m.0;
            backoff_initial = m.1.0;
            backoff_max = m.1.1.0;
            backoff_reset_after = m.1.1.1.0;
          },
      λ q. whole.1 (
        (
          (
            (
              (
                (
                  (
                    (
                      (
                        (
                          (
                            (negated (matches_name s.name)).1 q.name,
                            (negated (is_nonempty (or_default [] s.command))).1 q.command,
                          ),
                          policy.1 q.restart,
                        ),
                        boot.1 q.on_boot,
                      ),
                      (negated (is_signal_name s.stop_signal)).1 q.stop_signal,
                    ),
                    q.bounds,
                  ),
                  q.crash_budget,
                ),
                q.reload,
              ),
              q.dimensions,
            ),
            q.env,
          ),
          q.ready,
        ),
        (q.stop_timeout, (q.backoff_initial, (q.backoff_max, (q.backoff_reset_after, tt)))),
      ),
    )
