-- ===== src/Config/Signal.antt =====
-- internal/config/signal.go and signal_linux.go: signal names. A name is its list of code points.
-- The signal numbers are those of package syscall on Linux.
pub mod Names
use zpinit.Base.{
  ℕ, ◌-◌, Bool, true, false, ◌&&◌, Option, none, some, List, [], ◌∷◌, ◌++◌, leb, ◌==◌,
  if◌then◌else◌,
}
use zpinit.Base.Texts.{codes}
use zpinit.Base.Decimal.{decimal}

unfoldable pub eq_codes : List ℕ → List ℕ → Bool
eq_codes [] [] = true
eq_codes (a ∷ as') (b ∷ bs) = a == b && eq_codes as' bs
eq_codes _ _ = false

abbrev pub signals_by_name : List (List ℕ × ℕ)
signals_by_name =
    (codes "HUP", 1)
    ∷ (codes "INT", 2)
    ∷ (codes "QUIT", 3)
    ∷ (codes "ABRT", 6)
    ∷ (codes "KILL", 9)
    ∷ (codes "USR1", 10)
    ∷ (codes "USR2", 12)
    ∷ (codes "PIPE", 13)
    ∷ (codes "ALRM", 14)
    ∷ (codes "TERM", 15)
    ∷ (codes "CHLD", 17)
    ∷ (codes "CONT", 18)
    ∷ (codes "STOP", 19)
    ∷ (codes "TSTP", 20)
    ∷ (codes "URG", 23)
    ∷ (codes "WINCH", 28)
    ∷ (codes "ILL", 4)
    ∷ (codes "TRAP", 5)
    ∷ (codes "BUS", 7)
    ∷ (codes "FPE", 8)
    ∷ (codes "SEGV", 11)
    ∷ (codes "TTIN", 21)
    ∷ (codes "TTOU", 22)
    ∷ (codes "XCPU", 24)
    ∷ (codes "XFSZ", 25)
    ∷ (codes "VTALRM", 26)
    ∷ (codes "PROF", 27)
    ∷ (codes "IO", 29)
    ∷ (codes "SYS", 31)
    ∷ []

abbrev pub os_signals : List (List ℕ × ℕ)
os_signals = (codes "STKFLT", 16) ∷ (codes "PWR", 30) ∷ []

-- the table after init added the names of the operating system
abbrev pub all_signals : List (List ℕ × ℕ)
all_signals = signals_by_name ++ os_signals

unfoldable pub find_number : List (List ℕ × ℕ) → List ℕ → Option ℕ
unfolding eq_codes
find_number [] n = none
find_number ((name, sig) ∷ rest) n = if eq_codes name n then some sig else find_number rest n

-- the reverse table that init builds; no two names share a number
unfoldable pub find_name : List (List ℕ × ℕ) → ℕ → Option (List ℕ)
find_name [] s = none
find_name ((name, sig) ∷ rest) s = if sig == s then some (codes "SIG" ++ name) else find_name rest s

abbrev signal_name_or : ℕ → Option (List ℕ) → List ℕ
signal_name_or s none = codes "SIG" ++ decimal s
signal_name_or s (some n) = n

unfoldable pub signal_name : ℕ → List ℕ
unfolding find_name
signal_name s = signal_name_or s (find_name all_signals s)

-- strings.ToUpper at one code point. Outside ASCII only the dotless i and the long s have an upper
-- case in ASCII; the others keep out of the table whatever they map to.
unfoldable pub to_upper : ℕ → ℕ
to_upper c =
    if leb b'a' c && leb c b'z'
    then c - 32
    else if c == 0x131
    then b'I'
    else if c == 0x17f
    then b'S'
    else c

unfoldable pub map_upper : List ℕ → List ℕ
unfolding to_upper
map_upper [] = []
map_upper (c ∷ rest) = to_upper c ∷ map_upper rest

-- strings.TrimPrefix(s, "SIG")
unfoldable pub trim_sig : List ℕ → List ℕ
trim_sig (a ∷ b ∷ c ∷ rest) = if a == b'S' && b == b'I' && c == b'G' then rest else a ∷ b ∷ c ∷ rest
trim_sig s = s

unfoldable pub parse_signal : List ℕ → Option ℕ
unfolding find_number map_upper trim_sig
parse_signal name = find_number all_signals (trim_sig (map_upper name))
