-- ===== src/Supervisor/Runner/Effects.antt =====
-- internal/supervisor/runner.go: when the runner spawns a child, and which processes it signals.
use zpinit.Base.{ℕ, suc, ◌+◌, ◌≡◌, refl, ◌⊎◌, false, Option, none, some, List, [], ◌∷◌, ◌++◌, arith}
use zpinit.Reaper.Exit.{ExitInfo}
use zpinit.Supervisor.Replica.Expand.{All}
use zpinit.Supervisor.Runner.State.{
  State, stopping, Runner, mark_removing, clear_removing, mark_ready, observe, set_shutting_down,
  set_base_env,
}
use zpinit.Supervisor.Runner.Handlers.{
  World, Effect, spawned, signaled, handle_start, handle_stop, handle_exit, handle_backoff_expired,
  handle_stop_kill_timeout, spawn_next, start_from, fresh_budget, stop_signal_of, sigkill,
  record_failure, backoff_step,
}
use zpinit.Supervisor.Runner.Loop.{
  Event, start, stop, child_exits, backoff_fires, stop_kill_fires, delivered, latch_removing,
  unlatch_removing, ready, observed, latch_shutdown, env_changed, receive_exit, fire_backoff,
  fire_stop_kill, pending_exit, step, run,
}
use zpinit.Supervisor.Runner.Invariant.{IsWellFormed}

-- What an effect of a step from `r` to `after` may be. A spawn happens where there was no child, and
-- its child is the runner's; a signal goes to the child, whose exit has not been delivered, and is
-- the stop signal on a stop and SIGKILL otherwise.
pub data IsAllowed (r after : Runner) : Effect → Type 0 where
  spawn_ok :
      {pid : ℕ}
      → r.process ≡ none
      → after.process ≡ some (record { pid = pid; exit = none })
      → IsAllowed r after (spawned pid)
  signal_ok :
      {pid sig : ℕ}
      → r.process ≡ some (record { pid = pid; exit = none })
      → (sig ≡ stop_signal_of r.cfg) ⊎ (sig ≡ sigkill)
      → after.state ≡ stopping
      → IsAllowed r after (signaled pid sig)

spawn_next-IsAllowed :
    (w : World) (r s : Runner)
    → r.process ≡ none
    → All (IsAllowed r (spawn_next w s).0) (spawn_next w s).1
unfolding spawn_next
spawn_next-IsAllowed w r s h = grind (arith, spawn_ok)

start_from-IsAllowed :
    (w : World) (r : Runner)
    → IsWellFormed r
    → let (after, effects) = start_from r.state w (record r { stopped_manually = false }) in
      All (IsAllowed r after) effects
unfolding start_from
start_from-IsAllowed w r ok = ground (
  arith,
  spawn_next-IsAllowed w r (fresh_budget (record r { stopped_manually = false })),
  spawn_next-IsAllowed w r
      (fresh_budget (record r { stopped_manually = false; backoff_timer = none })),
)

handle_start-IsAllowed :
    (w : World) (r : Runner)
    → IsWellFormed r
    → All (IsAllowed r (handle_start w r).0.0) (handle_start w r).0.1
unfolding handle_start
handle_start-IsAllowed w r ok = ground (arith, start_from-IsAllowed w r ok)

handle_stop-IsAllowed :
    (w : World) (r : Runner)
    → IsWellFormed r
    → All (IsAllowed r (handle_stop w r).0) (handle_stop w r).1
unfolding handle_stop
handle_stop-IsAllowed w r ok = grind (arith, signal_ok)

fire_backoff-IsAllowed :
    (w : World) (r : Runner)
    → IsWellFormed r
    → let (after, effects) = fire_backoff w r.backoff_timer r in All (IsAllowed r after) effects
unfolding fire_backoff handle_backoff_expired
fire_backoff-IsAllowed w r ok =
    ground (arith, spawn_next-IsAllowed w r (record r { backoff_timer = none }))

fire_stop_kill-IsAllowed :
    (w : World) (r : Runner)
    → IsWellFormed r
    → let (after, effects) = fire_stop_kill w r.stop_kill_timer r in All (IsAllowed r after) effects
unfolding fire_stop_kill handle_stop_kill_timeout
fire_stop_kill-IsAllowed w r ok = grind (arith, signal_ok)

-- In a well-formed runner a step spawns only where there is no child, so no live child is ever
-- replaced, and signals only the PID of its own child, and that only while the exit of the child has not
-- been delivered to it. Whoever is signalled is stopping, and gets the stop signal or SIGKILL.
pub step-IsAllowed :
    (w : World) (e : Event) (r : Runner)
    → IsWellFormed r
    → All (IsAllowed r (step w e r).0) (step w e r).1
unfolding step
step-IsAllowed w start r ok = handle_start-IsAllowed w r ok
step-IsAllowed w stop r ok = handle_stop-IsAllowed w r ok
step-IsAllowed w backoff_fires r ok = fire_backoff-IsAllowed w r ok
step-IsAllowed w stop_kill_fires r ok = fire_stop_kill-IsAllowed w r ok
step-IsAllowed w _ r ok = tt

-- how many children a list of effects spawns
pub spawns : List Effect → ℕ
spawns [] = 0
spawns (spawned pid ∷ rest) = suc (spawns rest)
spawns (signaled pid sig ∷ rest) = spawns rest

spawns-append : (a b : List Effect) → spawns (a ++ b) ≡ spawns a + spawns b
unfolding spawns
spawns-append [] b = omega arith
spawns-append (spawned pid ∷ a) b = omega (arith, spawns-append a b)
spawns-append (signaled pid sig ∷ a) b = spawns-append a b

spawn_next-spawns :
    (w : World) (r : Runner)
    → (spawn_next w r).0.total_spawns ≡ r.total_spawns + spawns (spawn_next w r).1
unfolding spawn_next record_failure backoff_step spawns
spawn_next-spawns w r = ground arith

handle_exit-spawns :
    (w : World) (info : ExitInfo) (r : Runner)
    → (handle_exit w info r).total_spawns ≡ r.total_spawns
unfolding handle_exit record_failure backoff_step
handle_exit-spawns w info r = ground arith

receive_exit-spawns :
    (w : World) (o : Option ExitInfo) (r : Runner)
    → (receive_exit w o r).total_spawns ≡ r.total_spawns
unfolding receive_exit
receive_exit-spawns w none r = refl
receive_exit-spawns w (some info) r =
    handle_exit-spawns w info (record r { stop_kill_timer = none })

start_from-spawns :
    (w : World) (s : State) (r : Runner)
    → (start_from s w r).0.total_spawns ≡ r.total_spawns + spawns (start_from s w r).1
unfolding start_from spawns
start_from-spawns w s r = ground (
  arith,
  spawn_next-spawns w (fresh_budget r),
  spawn_next-spawns w (fresh_budget (record r { backoff_timer = none })),
)

step-spawns :
    (w : World) (e : Event) (r : Runner)
    → (step w e r).0.total_spawns ≡ r.total_spawns + spawns (step w e r).1
unfolding step spawns
step-spawns w start r =
    unfold handle_start in
    ground (arith, start_from-spawns w r.state (record r { stopped_manually = false }))
step-spawns w stop r = unfold handle_stop handle_exit record_failure backoff_step in ground arith
step-spawns w child_exits r = omega (arith, receive_exit-spawns w (pending_exit r.process) r)
step-spawns w backoff_fires r =
    unfold handle_backoff_expired in
    ground (arith, spawn_next-spawns w (record r { backoff_timer = none }))
step-spawns w stop_kill_fires r =
    unfold handle_stop_kill_timeout handle_exit record_failure backoff_step in ground arith
step-spawns w latch_removing r = unfold mark_removing in omega arith
step-spawns w unlatch_removing r = unfold clear_removing in omega arith
step-spawns w ready r = unfold mark_ready in omega arith
step-spawns w observed r = unfold observe in omega arith
step-spawns w (latch_shutdown on) r = unfold set_shutting_down in omega arith
step-spawns w (env_changed env) r = unfold set_base_env in omega arith
step-spawns w (delivered info) r = omega arith

-- The spawn counter of the status is exact: over any run it grows by the number of children spawned.
pub run-spawns :
    (events : List (World × Event)) (r : Runner)
    → (run events r).0.total_spawns ≡ r.total_spawns + spawns (run events r).1
unfolding run spawns
run-spawns [] r = omega arith
run-spawns ((w, e) ∷ rest) r = omega (
  arith,
  step-spawns w e r,
  run-spawns rest (step w e r).0,
  spawns-append (step w e r).1 (run rest (step w e r).0).1,
)
