-- ===== src/Config/Replicas.antt =====
-- internal/config/replicas.go and replica.go: the replicas key, and log paths per replica.
use zpinit.Base.{ℕ, String, Bool, true, not, ◌||◌, Option, none, some, if◌then◌else◌}
use zpinit.Base.Int.{ℤ, pos, ltb_ℤ}
use zpinit.Base.Texts.{str_eq, contains, replace_all}
use zpinit.Base.Decimal.{itoa}
use zpinit.Config.Types.{Replicas}

-- What the TOML decoder hands to UnmarshalTOML: an int64, a string, or a value of another type.
pub data TomlValue : Type 0 where
  int64 : ℤ → TomlValue
  text : String → TomlValue
  other : TomlValue

pub data ReplicasError : Type 0 where
  below_one : ℤ → ReplicasError
  unknown_string : String → ReplicasError
  wrong_type : ReplicasError

-- The receiver after the call, and the error. int is 64 bits wide, so int(x) is x.
unfoldable pub unmarshal_replicas : Replicas → TomlValue → Replicas × Option ReplicasError
unmarshal_replicas r (int64 x) =
    if ltb_ℤ x (pos 1) then (r, some (below_one x)) else (record r { n = x }, none)
unmarshal_replicas r (text x) =
    if not (str_eq x "auto") then (r, some (unknown_string x)) else (record r { auto = true }, none)
unmarshal_replicas r other = (r, some wrong_type)

unfoldable pub is_replicated : Replicas → Bool
is_replicated r = r.auto || ltb_ℤ (pos 1) r.n

unfoldable pub replica_log_path : String → ℕ → Bool → String
replica_log_path spec idx replicated =
    if not replicated || str_eq spec "" || str_eq spec "inherit"
    then spec
    else if contains "{index}" spec
    then replace_all spec "{index}" (itoa idx)
    else spec
