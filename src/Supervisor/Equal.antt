-- ===== src/Supervisor/Equal.antt =====
-- internal/supervisor/diff.go: servicesEqual and envMapsEqual. reflect.DeepEqual is written out over
-- the fields of a service: slices by their elements, maps by size and lookup, pointers by what they
-- point to; in [ready] a nil slice differs from an empty one.
use zpinit.Base.{
  String, Bool, true, false, ◌&&◌, Option, none, some, List, [], ◌∷◌, length, ◌==◌, if◌then◌else◌,
}
use zpinit.Base.Int.{ℤ, pos, eq_ℤ}
use zpinit.Base.Texts.{str_eq, eq_texts}
use zpinit.Config.Types.{
  StringMap, Replicas, Ready, Service, or_default, crash_budget, wants_pdeathsig, is_reloadable,
}

unfoldable pub eq_bool : Bool → Bool → Bool
eq_bool true b = b
eq_bool false true = false
eq_bool false false = true

-- m[k]
unfoldable pub lookup : String → StringMap → Option String
lookup k [] = none
lookup k ((j, v) ∷ m) = if str_eq j k then some v else lookup k m

abbrev holds : Option String → String → Bool
holds none v = false
holds (some u) v = str_eq u v

unfoldable pub holds_all : StringMap → StringMap → Bool
unfolding lookup
holds_all [] b = true
holds_all ((k, v) ∷ rest) b = holds (lookup k b) v && holds_all rest b

unfoldable pub env_maps_equal : StringMap → StringMap → Bool
unfolding holds_all
env_maps_equal a b = length a == length b && holds_all a b

abbrev pub eq_slice : Option (List String) → Option (List String) → Bool
eq_slice none none = true
eq_slice (some xs) (some ys) = eq_texts xs ys
eq_slice _ _ = false

unfoldable pub eq_ready : Option Ready → Option Ready → Bool
unfolding eq_texts
eq_ready none none = true
eq_ready (some a) (some b) =
    eq_slice a.command b.command
    && eq_ℤ a.interval b.interval
    && eq_ℤ a.timeout b.timeout
    && str_eq a.on_timeout b.on_timeout
eq_ready _ _ = false

abbrev static_n : Replicas → ℤ
static_n r = if r.auto then pos 0 else r.n

unfoldable pub services_equal : Service → Service → Bool
unfolding eq_bool is_reloadable wants_pdeathsig crash_budget
services_equal a b =
    eq_bool (is_reloadable a) (is_reloadable b)
    && (eq_bool (wants_pdeathsig a) (wants_pdeathsig b) && eq_ℤ (crash_budget a) (crash_budget b))
    && str_eq a.name b.name
    && eq_texts (or_default [] a.command) (or_default [] b.command)
    && str_eq a.cwd b.cwd
    && str_eq a.user b.user
    && str_eq a.group b.group
    && str_eq a.restart b.restart
    && eq_ℤ a.backoff_initial b.backoff_initial
    && eq_ℤ a.backoff_max b.backoff_max
    && eq_ℤ a.backoff_reset_after b.backoff_reset_after
    && str_eq a.stop_signal b.stop_signal
    && eq_ℤ a.stop_timeout b.stop_timeout
    && str_eq a.on_boot_failure b.on_boot_failure
    && env_maps_equal (or_default [] a.env) (or_default [] b.env)
    && (str_eq a.log.stdout b.log.stdout && str_eq a.log.stderr b.log.stderr)
    && eq_ready a.ready b.ready
    && (eq_ℤ (static_n a.replicas) (static_n b.replicas) && eq_bool a.replicas.auto b.replicas.auto)
    && eq_ℤ a.replicas_min b.replicas_min
    && eq_ℤ a.replicas_max b.replicas_max
    && str_eq a.reload_signal b.reload_signal
    && eq_texts (or_default [] a.reload_command) (or_default [] b.reload_command)
    && eq_texts (or_default [] a.reload_on_change) (or_default [] b.reload_on_change)
