-- ===== src/Supervisor/Runner/Stopping.antt =====
-- internal/supervisor/runner.go: stopping a service, and how its end is put down.
use zpinit.Base.{◌≡◌, ◌≢◌, ◌⊎◌, true, false, none, some, [], ◌∷◌, arith}
use zpinit.Reaper.Exit.{ExitInfo}
use zpinit.Supervisor.Runner.State.{running, stopping, stopped, Process, Runner, is_terminal}
use zpinit.Supervisor.Runner.Handlers.{
  World, signaled, handle_start, handle_stop, handle_exit, handle_stop_kill_timeout, stop_signal_of,
  sigkill,
}
use zpinit.Supervisor.Runner.Loop.{
  start, stop, child_exits, stop_kill_fires, delivered, deliver, deliver_to, step, run,
}
use zpinit.Supervisor.Runner.Invariant.{IsWellFormed}

-- A stop brings a well-formed runner to a terminal state at once, or leaves a child that is being
-- stopped.
pub stop_outcome :
    (w : World) (r : Runner)
    → IsWellFormed r
    → let after = (step w stop r).0 in
      ((is_terminal after.state ≡ true) × (after.process ≡ none))
      ⊎ ((after.state ≡ stopping) × (after.process ≢ none))
unfolding step handle_stop handle_exit
stop_outcome w r ok = ground arith

-- A running child that ignores its stop signal: the stop sends the signal and arms the timer with
-- stop_timeout; when the timer fires SIGKILL is sent, and when the exit is delivered and received the
-- service is stopped, by an operator, with no child and no timer left.
pub stop_escalates :
    (w₁ w₂ w₃ w₄ : World) (r : Runner) (info : ExitInfo)
    → IsWellFormed r
    → r.state ≡ running
    → r.process ≡ some (record { pid = info.pid; exit = none })
    → let stopped_at = run ((w₁, stop) ∷ []) r in
      let (after, effects) =
        run
          ((w₁, stop) ∷ (w₂, stop_kill_fires) ∷ (w₃, delivered info) ∷ (w₄, child_exits) ∷ [])
          r in
      (stopped_at.0.stop_kill_timer ≡ some r.cfg.stop_timeout)
      × (effects ≡ signaled info.pid (stop_signal_of r.cfg) ∷ signaled info.pid sigkill ∷ [])
      × (after.state ≡ stopped)
      × (after.last_terminal.manual ≡ true)
      × (after.process ≡ none)
      × (after.stop_kill_timer ≡ none)
      × (after.last_exit ≡ info)
unfolding run step handle_stop deliver deliver_to handle_exit handle_stop_kill_timeout
stop_escalates w₁ w₂ w₃ w₄ r info ok s p = (
  ground arith,
  ground arith,
  ground arith,
  ground arith,
  ground arith,
  ground arith,
  ground arith,
)

-- Let a runner be stopping, neither latch be set, and the exit of its child be delivered but not yet
-- received. A start is then answered as done, and neither it nor the exit that is received next spawns
-- or signals anything; but the start clears the mark of the stop: the service ends stopped with its last terminal edge put down as an operator's
-- and without the mark by which the status tells STOPPED from EXITED.
pub start_while_stopping :
    (w₁ w₂ : World) (r : Runner) (p : Process) (info : ExitInfo)
    → r.state ≡ stopping
    → r.removing ≡ false
    → r.shutting_down ≡ false
    → r.process ≡ some p
    → p.exit ≡ some info
    → let (after, effects) = run ((w₁, start) ∷ (w₂, child_exits) ∷ []) r in
      ((handle_start w₁ r).1 ≡ none)
      × (effects ≡ [])
      × (after.state ≡ stopped)
      × (after.last_terminal.manual ≡ true)
      × (after.stopped_manually ≡ false)
unfolding run step handle_start handle_exit
start_while_stopping w₁ w₂ r p info s a b c d =
    (ground arith, ground arith, ground arith, ground arith, ground arith)
