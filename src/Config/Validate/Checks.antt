-- ===== src/Config/Validate/Checks.antt =====
-- internal/config/load.go: what each check of validateService accepts.
use zpinit.Base.{
  String, ◌≡◌, ◌≢◌, refl, ◌⊎◌, ◌↔◌, inl, inr, Bool, true, false, not, ◌&&◌, Option, none, some,
  List, [], ◌∷◌, ◌++◌, arith, Bool-cases,
}
use zpinit.Base.Int.{ℤ, pos, ltb_ℤ, ◌≤ℤ◌}
use zpinit.Base.Texts.{str_eq, str_eq-eq, str_eq-ne, str_eq_self}
use zpinit.Config.Types.{
  StringMap, Duration, Ready, Service, or_default, is_nonempty, restart_never, ready_fail,
  ready_continue,
}
use zpinit.Config.Validate.Service.{
  ServiceError, reload_exclusive, bad_reload_signal, ready_command_required, negative_interval,
  negative_timeout, bad_on_timeout, bad_dimension, bad_env_key, reserved_env_key, negative_duration,
  max_replicas, is_reserved_env_key, matches_env_key, is_signal_name, when, check_bounds,
  check_crash_budget, check_reload, check_dimensions, check_env, check_ready, check_durations,
}
use zpinit.Supervisor.Replica.Expand.{All}

-- The bounds of the replicas: for "auto" a policy that restarts, and bounds that fit each other, where 0
-- is no bound; otherwise a number from 1 to 64 and no bounds.
abbrev pub HasBounds : Service → Type 0
HasBounds s =
    ((s.replicas.auto ≡ true)
      × (s.restart ≢ restart_never)
      × (pos 0 ≤ℤ s.replicas_min)
      × (s.replicas_min ≤ℤ pos max_replicas)
      × (pos 0 ≤ℤ s.replicas_max)
      × (s.replicas_max ≤ℤ pos max_replicas)
      × ((pos 1 ≤ℤ s.replicas_max) → (s.replicas_min ≤ℤ s.replicas_max)))
    ⊎ ((s.replicas.auto ≡ false)
        × (pos 1 ≤ℤ s.replicas.n)
        × (s.replicas.n ≤ℤ pos max_replicas)
        × (s.replicas_min ≡ pos 0)
        × (s.replicas_max ≡ pos 0))

abbrev pub OneOf : String → List String → Type 0
OneOf t [] = ⊥
OneOf t (a ∷ rest) = (t ≡ a) ⊎ OneOf t rest

-- a reload signal is a signal's name, and excludes a reload command
abbrev pub HasReload : Service → Type 0
HasReload s =
    (s.reload_signal ≡ "")
    ⊎ ((is_nonempty (or_default [] s.reload_command) ≡ false)
        × (is_signal_name s.reload_signal ≡ true))

abbrev pub HasReady : Option Ready → Type 0
HasReady none = Unit
HasReady (some r) =
    (is_nonempty (or_default [] r.command) ≡ true)
    × ((r.on_timeout ≡ ready_fail) ⊎ (r.on_timeout ≡ ready_continue))
    × (pos 0 ≤ℤ r.interval)
    × (pos 0 ≤ℤ r.timeout)

abbrev pub IsAtLeastZero : Option ℤ → Type 0
IsAtLeastZero none = Unit
IsAtLeastZero (some n) = pos 0 ≤ℤ n

append-nil {ℓ} : {A : Type ℓ} (xs ys : List A) → (xs ++ ys ≡ []) ↔ ((xs ≡ []) × (ys ≡ []))
append-nil [] ys = (λ h. (refl, h), λ h. h.1)
append-nil (x ∷ xs) ys = (λ h. absurd (cc h), λ h. absurd (cc h.0))

pub when_lem {ℓ} : {E : Type ℓ} (b : Bool) (e : E) → (when b e ≡ []) ↔ (b ≡ false)
when_lem true e = (λ h. absurd (cc h), λ h. absurd (cc h))
when_lem false e = (λ h. refl, λ h. refl)

-- two checks in a row find nothing if each finds nothing
pub and_then {ℓ κ μ} :
    {A : Type ℓ} {P : Type κ} {Q : Type μ} {xs ys : List A}
    → (xs ≡ []) ↔ P
    → (ys ≡ []) ↔ Q
    → (xs ++ ys ≡ []) ↔ (P × Q)
and_then {xs = xs} {ys = ys} h k = (
  λ e. let (a, b) = (append-nil xs ys).0 e in (h.0 a, k.0 b),
  λ (p, q). (append-nil xs ys).1 (h.1 p, k.1 q),
)

pub negated : (b : Bool) → (not b ≡ false) ↔ (b ≡ true)
negated b = (λ h. ground arith, λ h. ground arith)

str_eq_ne : (a b : String) → (str_eq a b ≡ false) ↔ (a ≢ b)
str_eq_ne a b = (
  str_eq-ne a b,
  λ h. elim (Bool-cases (str_eq a b)) [ inl e ↦ absurd (h (str_eq-eq a b e)) | inr e ↦ e ],
)

-- both tests fail exactly if the text is neither
pub neither_lem :
    (t a b : String) → (not (str_eq t a) && not (str_eq t b) ≡ false) ↔ ((t ≡ a) ⊎ (t ≡ b))
neither_lem t a b = (
  λ h. ground (arith, str_eq-eq t a, str_eq-eq t b),
  λ h. elim h [
    | inl e ↦ rw e (ground (arith, str_eq_self a))
    | inr e ↦ rw e (ground (arith, str_eq_self b))
  ],
)

pub when-nil {ℓ} :
    {E : Type ℓ} (b : Bool) (e : E) (rest : List E)
    → (when b e ++ rest ≡ []) ↔ ((b ≡ false) × (rest ≡ []))
when-nil true e rest = (λ h. absurd (cc h), λ h. absurd (cc h.0))
when-nil false e rest = (λ h. (refl, h), λ h. h.1)

bounds_lem :
    (b auto : Bool) (s : Service)
    → s.replicas.auto ≡ auto
    → str_eq s.restart restart_never ≡ b
    → (check_bounds s ≡ []) ↔ (
        ((auto ≡ true)
          × (b ≡ false)
          × (pos 0 ≤ℤ s.replicas_min)
          × (s.replicas_min ≤ℤ pos max_replicas)
          × (pos 0 ≤ℤ s.replicas_max)
          × (s.replicas_max ≤ℤ pos max_replicas)
          × ((pos 1 ≤ℤ s.replicas_max) → (s.replicas_min ≤ℤ s.replicas_max)))
        ⊎ ((auto ≡ false)
            × (pos 1 ≤ℤ s.replicas.n)
            × (s.replicas.n ≤ℤ pos max_replicas)
            × (s.replicas_min ≡ pos 0)
            × (s.replicas_max ≡ pos 0)))
unfolding check_bounds
bounds_lem true true s e f = (λ h. ground (arith, e, f), λ h. ground (arith, e, f))
bounds_lem false true s e f = (λ h. ground (arith, e, f), λ h. ground (arith, e, f))
bounds_lem b false s e f = (λ h. ground (arith, e), λ h. ground (arith, e))

pub check_bounds_lem : (s : Service) → (check_bounds s ≡ []) ↔ HasBounds s
check_bounds_lem s =
    let by = bounds_lem (str_eq s.restart restart_never) s.replicas.auto s refl refl in
    let never = str_eq_ne s.restart restart_never in
    (
      λ h. elim (by.0 h) [
        | inl (a, b, c, d, e, f, g) ↦ inl (a, never.0 b, c, d, e, f, g)
        | inr c ↦ inr c
      ],
      λ h. by.1 (elim h [
        | inl (a, b, c, d, e, f, g) ↦ inl (a, never.1 b, c, d, e, f, g)
        | inr c ↦ inr c
      ]),
    )

pub check_crash_budget_lem : (o : Option ℤ) → (check_crash_budget o ≡ []) ↔ IsAtLeastZero o
unfolding check_crash_budget
check_crash_budget_lem none = (λ h. tt, λ h. refl)
check_crash_budget_lem (some n) = (λ h. ground arith, λ h. ground arith)

reload_lem :
    (a b c : Bool) (e : ServiceError)
    → (when (not a && b) reload_exclusive ++ when (not a && not c) e ≡ [])
      ↔ ((a ≡ true) ⊎ ((b ≡ false) × (c ≡ true)))
reload_lem a b c e = (λ h. ground arith, λ h. ground arith)

pub check_reload_lem : (s : Service) → (check_reload s ≡ []) ↔ HasReload s
unfolding check_reload
check_reload_lem s =
    let by =
      reload_lem (str_eq s.reload_signal "") (is_nonempty (or_default [] s.reload_command))
        (is_signal_name s.reload_signal) (bad_reload_signal s.reload_signal) in
    (
      λ h. elim (by.0 h) [ inl e ↦ inl (str_eq-eq s.reload_signal "" e) | inr c ↦ inr c ],
      λ h. by.1 (elim h [ inl e ↦ inl (rw e (str_eq_self "")) | inr c ↦ inr c ]),
    )

ready_lem :
    (a b : Bool) (e : ServiceError) (interval timeout : ℤ)
    → (when (not a) ready_command_required
          ++ when b e
          ++ when (ltb_ℤ interval (pos 0)) negative_interval
          ++ when (ltb_ℤ timeout (pos 0)) negative_timeout
        ≡ [])
      ↔ ((a ≡ true) × (b ≡ false) × (pos 0 ≤ℤ interval) × (pos 0 ≤ℤ timeout))
ready_lem a b e interval timeout = (λ h. ground arith, λ h. ground arith)

pub check_ready_lem : (o : Option Ready) → (check_ready o ≡ []) ↔ HasReady o
unfolding check_ready
check_ready_lem none = (λ h. tt, λ h. refl)
check_ready_lem (some r) =
    let by =
      ready_lem (is_nonempty (or_default [] r.command))
        (not (str_eq r.on_timeout ready_fail) && not (str_eq r.on_timeout ready_continue))
        (bad_on_timeout r.on_timeout) r.interval r.timeout in
    let neither = neither_lem r.on_timeout ready_fail ready_continue in
    (
      λ h. let (a, b, c, d) = by.0 h in (a, neither.0 b, c, d),
      λ (a, b, c, d). by.1 (a, neither.1 b, c, d),
    )

abbrev pub IsDimension : String → Type 0
IsDimension dim = (dim ≡ "cpu") ⊎ (dim ≡ "memory")

pub check_dimensions_lem : (l : List String) → (check_dimensions l ≡ []) ↔ All IsDimension l
unfolding check_dimensions
check_dimensions_lem [] = (λ h. tt, λ h. refl)
check_dimensions_lem (dim ∷ l) =
    let neither = neither_lem dim "cpu" "memory" in
    let ih = check_dimensions_lem l in
    let first =
      when-nil (not (str_eq dim "cpu") && not (str_eq dim "memory")) (bad_dimension dim)
        (check_dimensions l) in
    (λ h. let (a, b) = first.0 h in (neither.0 a, ih.0 b), λ h. first.1 (neither.1 h.0, ih.1 h.1))

-- a key of the form that the pattern asks for, and not one of the supervisor's own
abbrev pub IsEnvEntry : (String × String) → Type 0
IsEnvEntry (k, v) = (matches_env_key k ≡ true) × (is_reserved_env_key k ≡ false)

pub check_env_lem : (l : StringMap) → (check_env l ≡ []) ↔ All IsEnvEntry l
unfolding check_env
check_env_lem [] = (λ h. tt, λ h. refl)
check_env_lem ((k, v) ∷ l) =
    let both =
      and_then
        (and_then (when_lem (not (matches_env_key k)) (bad_env_key k))
          (when_lem (is_reserved_env_key k) (reserved_env_key k)))
        (check_env_lem l) in
    let matches = negated (matches_env_key k) in
    (
      λ h. let ((a, b), c) = both.0 h in ((matches.0 a, b), c),
      λ ((a, b), c). both.1 ((matches.1 a, b), c),
    )

pub check_durations_lem :
    (l : List (String × Duration))
    → (check_durations l ≡ []) ↔ All (λ (d : String × Duration). pos 0 ≤ℤ d.1) l
unfolding check_durations
check_durations_lem [] = (λ h. tt, λ h. refl)
check_durations_lem ((name, v) ∷ l) =
    let ih = check_durations_lem l in
    let first = when-nil (ltb_ℤ v (pos 0)) (negative_duration name) (check_durations l) in
    (
      λ h. let (a, b) = first.0 h in (ground (arith, a), ih.0 b),
      λ h. first.1 (ground (arith, h.0), ih.1 h.1),
    )
