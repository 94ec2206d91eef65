-- ===== src/Reaper/Exit.antt =====
-- internal/reaper/reaper.go: ExitInfo.
use zpinit.Base.{ℕ, Bool, false}

pub record ExitInfo : Type 0 where
  pub pid : ℕ
  pub exit_code : ℕ
  pub signal : ℕ
  pub signaled : Bool
  pub oom_killed : Bool

-- the zero value of a Go variable
abbrev pub no_exit : ExitInfo
no_exit = record { pid = 0; exit_code = 0; signal = 0; signaled = false; oom_killed = false }
