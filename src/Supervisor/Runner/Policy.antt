-- ===== src/Supervisor/Runner/Policy.antt =====
-- internal/supervisor/runner.go: what the end of a child leads to, and the crash budget.
use zpinit.Base.{ℕ, ◌+◌, ◌≡◌, ◌≢◌, ◌⊎◌, inl, inr, true, false, none, some, arith, if◌then◌else◌}
use zpinit.Base.Int.{leb_ℤ}
use zpinit.Config.Types.{Service, restart_always, restart_on_failure, restart_never}
use zpinit.Reaper.Exit.{ExitInfo}
use zpinit.Supervisor.Runner.State.{running, backoff, stopped, fatal, Process, Runner}
use zpinit.Supervisor.Runner.Handlers.{
  World, handle_exit, is_spent, record_failure, backoff_step, up_for, should_restart, is_crash,
}
use zpinit.Supervisor.Runner.Loop.{child_exits, step}

-- The restart policies that start the service again after such an exit.
abbrev pub Restarts : Service → ExitInfo → Type 0
Restarts cfg info =
    (cfg.restart ≡ restart_always) ⊎ ((cfg.restart ≡ restart_on_failure) × (is_crash info ≡ true))

-- The policies that let the service rest.
abbrev pub Rests : Service → ExitInfo → Type 0
Rests cfg info =
    (cfg.restart ≡ restart_never) ⊎ ((cfg.restart ≡ restart_on_failure) × (is_crash info ≡ false))

pub should_restart-Restarts :
    (cfg : Service) (info : ExitInfo) → Restarts cfg info → should_restart cfg info ≡ true
unfolding should_restart
should_restart-Restarts cfg info (inl e) = rw e
should_restart-Restarts cfg info (inr (e, c)) = rw (e, c)

should_restart-Rests :
    (cfg : Service) (info : ExitInfo) → Rests cfg info → should_restart cfg info ≡ false
unfolding should_restart
should_restart-Rests cfg info (inl e) = rw e
should_restart-Rests cfg info (inr (e, c)) = rw (e, c)

-- the consecutive crashes that the exit is counted on top of
abbrev pub counted : World → Runner → ℕ
counted w r = if leb_ℤ r.cfg.backoff_reset_after (up_for w r.up_since) then 0 else r.crashes

-- When the child of a running service ends: under a policy that lets it rest the service is stopped,
-- not by an operator, with its crash count kept. Under one that restarts it the crash is counted, on
-- top of 0 if the child was up for backoff_reset_after, and the service is fatal exactly if that
-- spends the budget, otherwise in backoff with a timer armed.
pub running_exit :
    (w : World) (r : Runner) (p : Process) (info : ExitInfo)
    → r.state ≡ running
    → r.process ≡ some p
    → p.exit ≡ some info
    → let after = (step w child_exits r).0 in
      (Rests r.cfg info
        → (after.state ≡ stopped)
          × (after.last_terminal.manual ≡ false)
          × (after.crashes ≡ r.crashes))
      × (Restarts r.cfg info
          → (after.crashes ≡ counted w r + 1)
            × (after.state ≡ (if is_spent r.cfg (counted w r + 1) then fatal else backoff))
            × (after.state ≡ backoff → after.backoff_timer ≢ none))
unfolding step handle_exit record_failure backoff_step
running_exit w r p info s c e = (
  λ h. ground (arith, should_restart-Rests r.cfg info h),
  λ h. ground (arith, should_restart-Restarts r.cfg info h),
)
