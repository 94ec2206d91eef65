-- ===== src/Supervisor/Targets.antt =====
-- internal/supervisor/control.go, status.go and cmd/zpctl/target.go: the names of services and replicas on
-- the command line, as code points, and the states as supervisord spells them.
pub mod Names
pub mod Supervisord
use zpinit.Base.{
  ℕ, ◌+◌, String, Bool, true, false, not, ◌&&◌, ◌||◌, Option, none, some, List, [], ◌∷◌, ◌++◌, ◌==◌,
  if◌then◌else◌,
}
use zpinit.Base.Int.{ℤ, pos, negsuc, eq_ℤ}
use zpinit.Base.Texts.{codes}
use zpinit.Base.Decimal.{decimal}
use zpinit.Base.Number.{atoi}
use zpinit.Base.Cuts.{cut, cut_prefix}
use zpinit.Config.Signal.{eq_codes}
use zpinit.Supervisor.Runner.State.{
  State, pending, starting, running, backoff, stopping, stopped, fatal, Runner,
}

pub data TargetError : Type 0 where
  no_service_named : TargetError
  invalid_index unknown_service : List ℕ → TargetError
  out_of_range : ℤ → List ℕ → ℕ → TargetError

pub data Targets : Type 0 where
  found : List Runner → Targets
  failed : TargetError → Targets

abbrev pub has_name : List ℕ → Runner → Bool
has_name name r = eq_codes (codes r.cfg.name) name

unfoldable pub named : List ℕ → List Runner → List Runner
unfolding eq_codes
named name [] = []
named name (r ∷ rest) = let more = named name rest in if has_name name r then r ∷ more else more

unfoldable pub count_named : List ℕ → List Runner → ℕ
unfolding eq_codes
count_named name [] = 0
count_named name (r ∷ rest) =
    let more = count_named name rest in if has_name name r then more + 1 else more

unfoldable pub find_replica : List ℕ → ℤ → List Runner → Option Runner
unfolding eq_codes
find_replica name idx [] = none
find_replica name idx (r ∷ rest) =
    if has_name name r && eq_ℤ (pos r.replica_index) idx then some r else find_replica name idx rest

abbrev replica_target : List ℕ → ℤ → List Runner → Option Runner → Targets
replica_target name idx snap (some r) = found (r ∷ [])
replica_target name idx snap none =
    let total = count_named name snap in
    if total == 0 then failed (unknown_service name) else failed (out_of_range idx name total)

abbrev index_target : List ℕ → List ℕ → Option ℤ → List Runner → Targets
index_target name replica none snap = failed (invalid_index replica)
index_target name replica (some idx) snap =
    replica_target name idx snap (find_replica name idx snap)

abbrev all_targets : List ℕ → List Runner → Targets
all_targets arg [] = failed (unknown_service arg)
all_targets arg (r ∷ rest) = found (r ∷ rest)

unfoldable pub resolve_target : List Runner → List ℕ → Targets
unfolding find_replica count_named named
resolve_target snap arg = elim (cut b'/' arg) [
  | some (name, replica) ↦ index_target name replica (atoi replica) snap
  | none ↦ all_targets arg (named arg snap)
]

abbrev join : Targets → Targets → Targets
join (failed e) more = failed e
join (found rs) (failed e) = failed e
join (found rs) (found more) = found (rs ++ more)

unfoldable pub resolve_each : List Runner → List (List ℕ) → Targets
unfolding resolve_target
resolve_each snap [] = found []
resolve_each snap (n ∷ rest) =
    let more = resolve_each snap rest in join (resolve_target snap n) more

abbrev pub is_all : List (List ℕ) → Bool
is_all (n ∷ []) = eq_codes n (codes "all")
is_all _ = false

unfoldable pub expand_targets : List Runner → List (List ℕ) → Bool → Targets
unfolding resolve_each eq_codes
expand_targets snap [] all_on_empty = if all_on_empty then found snap else failed no_service_named
expand_targets snap (n ∷ rest) all_on_empty =
    if is_all (n ∷ rest) then found snap else resolve_each snap (n ∷ rest)

-- an index of a process, or no known target
abbrev native_index : List ℕ → Option ℤ → Option (List ℕ)
native_index group none = none
native_index group (some (pos n)) = some (group ++ b'/' ∷ decimal n)
native_index group (some (negsuc n)) = none

-- translateSupervisorTarget; `none` is its error
unfoldable pub translate_target : List ℕ → Option (List ℕ)
unfolding cut_prefix eq_codes
translate_target arg = elim (cut b':' arg) [
  | none ↦ some arg
  | some (group, proc) ↦
      if eq_codes proc (b'*' ∷ []) || eq_codes proc group
      then some group
      else elim (cut_prefix (group ++ b'_' ∷ []) proc) [
        | none ↦ none
        | some suffix ↦ native_index group (atoi suffix)
      ]
]

unfoldable pub translate_targets : List (List ℕ) → Option (List (List ℕ))
unfolding translate_target
translate_targets [] = some []
translate_targets (a ∷ rest) = elim (translate_target a) [
  | none ↦ none
  | some t ↦ elim (translate_targets rest) [ none ↦ none | some ts ↦ some (t ∷ ts) ]
]

unfoldable pub map_to_supervisord_state : State → Bool → String
map_to_supervisord_state pending manual_stop = "STOPPED"
map_to_supervisord_state starting manual_stop = "STARTING"
map_to_supervisord_state running manual_stop = "RUNNING"
map_to_supervisord_state backoff manual_stop = "BACKOFF"
map_to_supervisord_state stopping manual_stop = "STOPPING"
map_to_supervisord_state stopped manual_stop = if manual_stop then "STOPPED" else "EXITED"
map_to_supervisord_state fatal manual_stop = "FATAL"
