-- ===== src/Supervisor/Runner/Invariant.antt =====
-- internal/supervisor/runner.go: what holds of a runner between two events.
use zpinit.Base.{ℕ, String, ◌≡◌, refl, Bool, true, false, Option, none, some, List, [], ◌∷◌, arith}
use zpinit.Config.Types.{Service}
use zpinit.Reaper.Exit.{ExitInfo}
use zpinit.Supervisor.Runner.State.{
  State, starting, running, backoff, stopping, fatal, Runner, same_state, is_terminal, set_state,
  new_runner_for_replica, mark_removing, clear_removing, mark_ready, observe, set_shutting_down,
  set_base_env,
}
use zpinit.Supervisor.Runner.Handlers.{
  World, handle_start, handle_stop, handle_exit, handle_backoff_expired, is_spent,
  handle_stop_kill_timeout, spawn_next, record_failure, start_from, fresh_budget, forgive,
  backoff_step,
}
use zpinit.Supervisor.Runner.Loop.{
  Event, start, stop, child_exits, backoff_fires, stop_kill_fires, delivered, latch_removing,
  unlatch_removing, ready, observed, latch_shutdown, env_changed, deliver, deliver_to, receive_exit,
  pending_exit, step, run,
}

abbrev pub is_some {ℓ} : {A : Type ℓ} → Option A → Bool
is_some none = false
is_some (some a) = true

abbrev pub has_child : State → Bool
has_child running = true
has_child stopping = true
has_child _ = false

pub record IsWellFormed (r : Runner) : Type 0 where
  pub child : is_some r.process ≡ has_child r.state
  pub waits : is_some r.backoff_timer ≡ same_state r.state backoff
  pub kills : is_some r.stop_kill_timer ≡ true → r.state ≡ stopping
  pub settled : same_state r.state starting ≡ false
  pub budget : is_spent r.cfg r.crashes ≡ same_state r.state fatal
  pub ended :
      is_terminal r.state ≡ true
      → (r.last_terminal.state ≡ r.state) × (r.last_terminal.valid ≡ true)

-- No child and no timer: what a handler meets when it gives up on a child or has none yet.
pub record IsIdle (r : Runner) : Type 0 where
  pub no_child : r.process ≡ none
  pub no_wait : r.backoff_timer ≡ none
  pub no_kill : r.stop_kill_timer ≡ none

record_failure-IsWellFormed :
    (w : World) (r : Runner) → IsIdle r → IsWellFormed (record_failure w r)
unfolding record_failure backoff_step
record_failure-IsWellFormed w r idle = ground arith

spawn_next-IsWellFormed :
    (w : World) (r : Runner)
    → IsIdle r
    → is_spent r.cfg r.crashes ≡ false
    → IsWellFormed (spawn_next w r).0
unfolding spawn_next
spawn_next-IsWellFormed w r idle b =
    ground (arith, record_failure-IsWellFormed w (set_state starting r))

handle_exit-IsWellFormed :
    (w : World) (info : ExitInfo) (r : Runner)
    → r.backoff_timer ≡ none
    → r.stop_kill_timer ≡ none
    → is_spent r.cfg r.crashes ≡ false
    → IsWellFormed (handle_exit w info r)
unfolding handle_exit
handle_exit-IsWellFormed w info r p q b = ground (
  arith,
  record_failure-IsWellFormed w (forgive w (record r { last_exit = info; process = none })),
)

pub is_spent_zero : (cfg : Service) → is_spent cfg 0 ≡ false
unfolding is_spent
is_spent_zero cfg = ground arith

module _ (w : World) (r : Runner) (ok : IsWellFormed r) where
  start_from-IsWellFormed :
      IsWellFormed (start_from r.state w (record r { stopped_manually = false })).0
  unfolding start_from
  start_from-IsWellFormed = ground (
    arith,
    is_spent_zero r.cfg,
    spawn_next-IsWellFormed w (fresh_budget (record r { stopped_manually = false })),
    spawn_next-IsWellFormed w
        (fresh_budget (record r { stopped_manually = false; backoff_timer = none })),
  )

  handle_start-IsWellFormed : IsWellFormed (handle_start w r).0.0
  unfolding handle_start
  handle_start-IsWellFormed = ground (arith, start_from-IsWellFormed)

  handle_stop-IsWellFormed : IsWellFormed (handle_stop w r).0
  unfolding handle_stop handle_exit
  handle_stop-IsWellFormed = ground arith

  handle_backoff_expired-IsWellFormed :
      IsWellFormed (handle_backoff_expired w (record r { backoff_timer = none })).0
  unfolding handle_backoff_expired
  handle_backoff_expired-IsWellFormed =
      ground (arith, spawn_next-IsWellFormed w (record r { backoff_timer = none }))

  handle_stop_kill_timeout-IsWellFormed :
      IsWellFormed (handle_stop_kill_timeout w (record r { stop_kill_timer = none })).0
  unfolding handle_stop_kill_timeout handle_exit
  handle_stop_kill_timeout-IsWellFormed = ground arith

  receive_exit-IsWellFormed :
      (o : Option ExitInfo) → pending_exit r.process ≡ o → IsWellFormed (receive_exit w o r)
  unfolding receive_exit
  receive_exit-IsWellFormed none h = ok
  receive_exit-IsWellFormed (some info) h =
      ground (arith, handle_exit-IsWellFormed w info (record r { stop_kill_timer = none }))

-- Every event, answered by any world, keeps the invariant.
pub step-IsWellFormed :
    (w : World) (e : Event) (r : Runner) → IsWellFormed r → IsWellFormed (step w e r).0
unfolding step
step-IsWellFormed w start r ok = handle_start-IsWellFormed w r ok
step-IsWellFormed w stop r ok = handle_stop-IsWellFormed w r ok
step-IsWellFormed w child_exits r ok =
    receive_exit-IsWellFormed w r ok (pending_exit r.process) refl
step-IsWellFormed w backoff_fires r ok = ground (arith, handle_backoff_expired-IsWellFormed w r ok)
step-IsWellFormed w stop_kill_fires r ok =
    ground (arith, handle_stop_kill_timeout-IsWellFormed w r ok)
step-IsWellFormed w (delivered info) r ok = unfold deliver deliver_to in ground arith
step-IsWellFormed w latch_removing r ok = unfold mark_removing in ground arith
step-IsWellFormed w unlatch_removing r ok = unfold clear_removing in ground arith
step-IsWellFormed w ready r ok = unfold mark_ready in ground arith
step-IsWellFormed w observed r ok = unfold observe in ground arith
step-IsWellFormed w (latch_shutdown on) r ok = unfold set_shutting_down in ground arith
step-IsWellFormed w (env_changed env) r ok = unfold set_base_env in ground arith

new-IsWellFormed :
    (cfg spec : Service) (env : List String) (i : ℕ)
    → IsWellFormed (new_runner_for_replica cfg spec env i)
unfolding new_runner_for_replica
new-IsWellFormed cfg spec env i = ground (arith, is_spent_zero cfg)

run_keeps :
    (events : List (World × Event)) (r : Runner) → IsWellFormed r → IsWellFormed (run events r).0
unfolding run
run_keeps [] r ok = ok
run_keeps ((w, e) ∷ rest) r ok = run_keeps rest (step w e r).0 (step-IsWellFormed w e r ok)

-- Whatever a run of the loop makes of a new runner, it has a child exactly if it is running or stopping
-- and a backoff timer exactly in backoff, its kill timer is set only while it is stopping, it does not
-- rest in starting, it is fatal exactly if its crashes spend the budget, and its last terminal edge is
-- that of the terminal state it is in.
pub run-IsWellFormed :
    (events : List (World × Event)) (cfg spec : Service) (env : List String) (i : ℕ)
    → IsWellFormed (run events (new_runner_for_replica cfg spec env i)).0
run-IsWellFormed events cfg spec env i = run_keeps events _ (new-IsWellFormed cfg spec env i)
