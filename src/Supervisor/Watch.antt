-- ===== src/Supervisor/Watch.antt =====
-- internal/supervisor/orchestrator.go: the watcher of exit_code_from.
use zpinit.Base.{
  ◌≡◌, Bool, true, false, not, ◌&&◌, ◌||◌, Option, none, some, List, [], ◌∷◌, arith, if◌then◌else◌,
}
use zpinit.Reaper.Exit.{ExitInfo}
use zpinit.Supervisor.Runner.State.{
  starting, stopping, Runner, TerminalInfo, same_state, is_terminal, set_state,
}
use zpinit.Supervisor.Runner.Handlers.{
  World, handle_start, handle_stop, handle_exit, handle_backoff_expired, handle_stop_kill_timeout,
  spawn_next, record_failure, start_from, forgive, fresh_budget, backoff_step,
}
use zpinit.Supervisor.Runner.Loop.{
  Event, start, stop, child_exits, backoff_fires, stop_kill_fires, step, receive_exit, pending_exit,
  deliver,
}
use zpinit.Supervisor.Runner.State.{
  mark_removing, clear_removing, mark_ready, observe, set_shutting_down, set_base_env,
}
use zpinit.Supervisor.Runner.Invariant.{IsWellFormed, step-IsWellFormed}

-- A round of the watcher: its wait is canceled, or the target has ended; then whether its installation is
-- still the current one, what LastTerminal says, and whether the target leaves the terminal state.
pub data WatchRound : Type 0 where
  canceled : WatchRound
  ended : Bool → TerminalInfo → Bool → WatchRound

-- whether it shuts the supervisor down
unfoldable pub watch_exit : List WatchRound → Bool
watch_exit [] = false
watch_exit (canceled ∷ rest) = false
watch_exit (ended current info leaves ∷ rest) =
    let again = watch_exit rest in
    if not current
    then false
    else if info.valid && info.manual
    then (if leaves then again else false)
    else true

abbrev pub is_stop : Event → Bool
is_stop stop = true
is_stop _ = false

record_failure-info :
    (w : World) (r : Runner)
    → is_terminal (record_failure w r).state ≡ true
    → (record_failure w r).last_terminal.manual ≡ false
unfolding record_failure backoff_step set_state
record_failure-info w r h = ground arith

spawn_next-info :
    (w : World) (r : Runner)
    → is_terminal (spawn_next w r).0.state ≡ true
    → (spawn_next w r).0.last_terminal.manual ≡ false
unfolding spawn_next set_state
spawn_next-info w r h = ground (arith, record_failure-info w (set_state starting r))

handle_exit-info :
    (w : World) (info : ExitInfo) (r : Runner)
    → is_terminal (handle_exit w info r).state ≡ true
    → (handle_exit w info r).last_terminal.manual ≡ same_state r.state stopping
unfolding handle_exit set_state
handle_exit-info w info r h =
    ground
      (arith, record_failure-info w (forgive w (record r { last_exit = info; process = none })))

receive_exit-info :
    (w : World) (o : Option ExitInfo) (r : Runner)
    → is_terminal r.state ≡ false
    → is_terminal (receive_exit w o r).state ≡ true
    → (receive_exit w o r).last_terminal.manual ≡ same_state r.state stopping
unfolding receive_exit
receive_exit-info w none r h k = cc
receive_exit-info w (some info) r h k =
    handle_exit-info w info (record r { stop_kill_timer = none }) k

terminal_edge_manual :
    (w : World) (e : Event) (r : Runner)
    → is_terminal r.state ≡ false
    → is_terminal (step w e r).0.state ≡ true
    → (step w e r).0.last_terminal.manual ≡ is_stop e || same_state r.state stopping
unfolding step
terminal_edge_manual w start r h k =
    unfold handle_start start_from in
    ground (
      arith,
      spawn_next-info w (fresh_budget (record r { stopped_manually = false })),
      spawn_next-info w
          (fresh_budget (record r { stopped_manually = false; backoff_timer = none })),
    )
terminal_edge_manual w stop r h k = unfold handle_stop handle_exit set_state in ground arith
terminal_edge_manual w child_exits r h k = receive_exit-info w (pending_exit r.process) r h k
terminal_edge_manual w backoff_fires r h k =
    unfold handle_backoff_expired in
    ground (arith, spawn_next-info w (record r { backoff_timer = none }))
terminal_edge_manual w stop_kill_fires r h k =
    unfold handle_stop_kill_timeout handle_exit set_state in ground arith
terminal_edge_manual w _ r h k =
    unfold deliver mark_removing clear_removing mark_ready observe set_shutting_down set_base_env in
    cc

-- The watcher of exit_code_from, at the edge by which its target ends: if the edge comes of a stop, or
-- the target was stopping, it does not shut the supervisor down but watches on as soon as the target
-- has left the terminal state; if the child ended on its own, could not be started or has spent its
-- budget, it shuts down.
pub watch_exit_edge :
    (w : World) (e : Event) (r : Runner) (leaves : Bool) (rest : List WatchRound)
    → IsWellFormed r
    → is_terminal r.state ≡ false
    → is_terminal (step w e r).0.state ≡ true
    → watch_exit (ended true (step w e r).0.last_terminal leaves ∷ rest)
      ≡ not (is_stop e || same_state r.state stopping) || (leaves && watch_exit rest)
unfolding watch_exit
watch_exit_edge w e r leaves rest ok h k =
    let (same, valid) = (step-IsWellFormed w e r ok).ended k in
    ground (arith, terminal_edge_manual w e r h k, valid)
