-- ===== src/Supervisor/Runner/Loop.antt =====
-- internal/supervisor/runner.go: the select of Run over the events of a runner, with the calls that
-- come from other goroutines. The environment picks the events in any order; one whose channel
-- holds nothing is never picked, and changes nothing here.
use zpinit.Base.{String, Bool, Option, none, some, List, [], ◌∷◌, ◌++◌, ◌==◌, if◌then◌else◌}
use zpinit.Base.Int.{ℤ}
use zpinit.Reaper.Exit.{ExitInfo}
use zpinit.Supervisor.Runner.State.{
  Process, Runner, mark_removing, clear_removing, set_shutting_down, mark_ready, set_base_env,
  observe,
}
use zpinit.Supervisor.Runner.Handlers.{
  World, Effect, handle_start, handle_stop, handle_exit, handle_backoff_expired,
  handle_stop_kill_timeout,
}

pub data Event : Type 0 where
  -- the cases of the select
  start stop child_exits backoff_fires stop_kill_fires : Event
  -- the reaper sends on the child's channel
  delivered : ExitInfo → Event
  -- calls from other goroutines
  latch_removing unlatch_removing ready observed : Event
  latch_shutdown : Bool → Event
  env_changed : List String → Event

-- The reaper sends once to the channel of a tracked PID; the slot is free then.
unfoldable pub deliver_to : ExitInfo → Process → Process
deliver_to info p = elim p.exit [
  | some old ↦ p
  | none ↦ if info.pid == p.pid then record p { exit = some info } else p
]

unfoldable pub deliver : ExitInfo → Option Process → Option Process
unfolding deliver_to
deliver info none = none
deliver info (some p) = some (deliver_to info p)

abbrev pub pending_exit : Option Process → Option ExitInfo
pending_exit none = none
pending_exit (some p) = p.exit

-- the case of exitCh: the kill timer is no longer needed
unfoldable pub receive_exit : World → Option ExitInfo → Runner → Runner
receive_exit w none r = r
receive_exit w (some info) r = handle_exit w info (record r { stop_kill_timer = none })

unfoldable pub fire_backoff : World → Option ℤ → Runner → Runner × List Effect
fire_backoff w none r = (r, [])
fire_backoff w (some d) r = handle_backoff_expired w (record r { backoff_timer = none })

unfoldable pub fire_stop_kill : World → Option ℤ → Runner → Runner × List Effect
fire_stop_kill w none r = (r, [])
fire_stop_kill w (some d) r = handle_stop_kill_timeout w (record r { stop_kill_timer = none })

unfoldable pub step : World → Event → Runner → Runner × List Effect
unfolding receive_exit fire_backoff fire_stop_kill
step w start r = (handle_start w r).0
step w stop r = handle_stop w r
step w child_exits r = (receive_exit w (pending_exit r.process) r, [])
step w backoff_fires r = fire_backoff w r.backoff_timer r
step w stop_kill_fires r = fire_stop_kill w r.stop_kill_timer r
step w (delivered info) r = (record r { process = deliver info r.process }, [])
step w latch_removing r = (mark_removing r, [])
step w unlatch_removing r = (clear_removing r, [])
step w ready r = (mark_ready r, [])
step w observed r = (observe r, [])
step w (latch_shutdown on) r = (set_shutting_down on r, [])
step w (env_changed env) r = (set_base_env env r, [])

-- A run of the loop: each event with the world that answers it.
unfoldable pub run : List (World × Event) → Runner → Runner × List Effect
run [] r = (r, [])
run ((w, e) ∷ rest) r =
    let (r', effects) = step w e r in let (r'', more) = run rest r' in (r'', effects ++ more)
