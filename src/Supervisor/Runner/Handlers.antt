-- ===== src/Supervisor/Runner/Handlers.antt =====
-- internal/supervisor/runner.go: the handlers of the Run loop. What a handler does outside the
-- runner, it returns as a list of effects.
use zpinit.Base.{
  ℕ, ◌+◌, ◌^◌, ◌-◌, String, Bool, true, false, not, ◌&&◌, ◌||◌, Option, none, some, List, [], ◌∷◌,
  ◌==◌, if◌then◌else◌,
}
use zpinit.Base.Int.{ℤ, pos, negsuc, ◌+ℤ◌, ◌-ℤ◌, leb_ℤ, ltb_ℤ, sub_ℕ}
use zpinit.Base.Texts.{codes, str_eq}
use zpinit.Config.Types.{Service, crash_budget, or_default, restart_always, restart_on_failure}
use zpinit.Config.Signal.{parse_signal}
use zpinit.Reaper.Exit.{ExitInfo}
use zpinit.Supervisor.Runner.State.{
  State, pending, starting, running, backoff, stopping, stopped, fatal, Process, Runner, same_state,
  set_state, set_terminal,
}

-- What the outside answers while one event is handled: the spawner, the clock, and the jitter
-- that the random source gives for a delay.
pub record World : Type 0 where
  pub spawn : Service → List String → Option ℕ
  pub now : ℕ
  pub shift : ℤ → ℤ

pub data Effect : Type 0 where
  spawned : ℕ → Effect
  signaled : ℕ → ℕ → Effect

pub data StartError : Type 0 where
  being_removed shutting_down : StartError

abbrev pub sigterm : ℕ
sigterm = 15

abbrev pub sigkill : ℕ
sigkill = 9

-- A sum or a double of two int64 values, wrapped to 64 bits.
unfoldable pub wrap64 : ℤ → ℤ
unfolding ◌+ℤ◌ ◌-ℤ◌
wrap64 x =
    if leb_ℤ (pos (2 ^ 63)) x
    then x -ℤ pos (2 ^ 64)
    else if ltb_ℤ x (negsuc (2 ^ 63 - 1))
    then x +ℤ pos (2 ^ 64)
    else x

-- the delay that backoffStep starts from
unfoldable pub base_delay : Runner → ℤ
base_delay r = if leb_ℤ r.next_delay (pos 0) then r.cfg.backoff_initial else r.next_delay

unfoldable pub following_delay : Service → ℤ → ℤ
following_delay cfg delay =
    let next = wrap64 (delay +ℤ delay) in
    if ltb_ℤ cfg.backoff_max next then cfg.backoff_max else next

unfoldable pub jittered : World → ℤ → ℤ
jittered w delay =
    let moved = wrap64 (delay +ℤ w.shift delay) in if ltb_ℤ moved (pos 0) then pos 0 else moved

unfoldable pub backoff_step : World → Runner → ℤ × Runner
backoff_step w r =
    let delay = base_delay r in
    (jittered w delay, record r { next_delay = following_delay r.cfg delay })

unfoldable pub schedule_backoff : World → Runner → Runner
unfolding backoff_step set_state
schedule_backoff w r =
    let (delay, r') = backoff_step w r in
    set_state backoff (record r' { backoff_timer = some delay })

-- the budget is spent: it is positive, and reached
unfoldable pub is_spent : Service → ℕ → Bool
unfolding crash_budget
is_spent cfg crashes = ltb_ℤ (pos 0) (crash_budget cfg) && leb_ℤ (crash_budget cfg) (pos crashes)

unfoldable pub record_failure : World → Runner → Runner
unfolding set_terminal schedule_backoff
record_failure w r =
    let r' = record r { crashes = r.crashes + 1 } in
    if is_spent r.cfg r'.crashes then set_terminal fatal false r' else schedule_backoff w r'

unfoldable pub spawn_result : World → Runner → Option ℕ → Runner × List Effect
unfolding set_state
spawn_result w r none = (record_failure w r, [])
spawn_result w r (some pid) = (
  set_state running (record r {
    process = some (record { pid = pid; exit = none });
    up_since = some w.now;
    total_spawns = r.total_spawns + 1;
  }),
  spawned pid ∷ [],
)

unfoldable pub spawn_next : World → Runner → Runner × List Effect
unfolding spawn_result set_state
spawn_next w r = let r' = set_state starting r in spawn_result w r' (w.spawn r'.cfg r'.base_env)

unfoldable pub fresh_budget : Runner → Runner
fresh_budget r = record r { crashes = 0; next_delay = r.cfg.backoff_initial }

unfoldable pub start_from : State → World → Runner → Runner × List Effect
unfolding fresh_budget
start_from pending w r = spawn_next w (fresh_budget r)
start_from stopped w r = spawn_next w (fresh_budget r)
start_from fatal w r = spawn_next w (fresh_budget r)
start_from backoff w r = spawn_next w (fresh_budget (record r { backoff_timer = none }))
start_from _ w r = (r, [])

unfoldable pub handle_start : World → Runner → (Runner × List Effect) × Option StartError
unfolding start_from
handle_start w r =
    if r.removing
    then ((r, []), some being_removed)
    else if r.shutting_down
    then ((r, []), some shutting_down)
    else (start_from r.state w (record r { stopped_manually = false }), none)

abbrev pub is_crash : ExitInfo → Bool
is_crash info = info.signaled || not (info.exit_code == 0)

unfoldable pub should_restart : Service → ExitInfo → Bool
should_restart cfg info =
    if str_eq cfg.restart restart_always
    then true
    else if str_eq cfg.restart restart_on_failure
    then is_crash info
    else false

-- how long the child was up; the zero Time counts as no time at all
unfoldable pub up_for : World → Option ℕ → ℤ
up_for w none = pos 0
up_for w (some since) = sub_ℕ w.now since

unfoldable pub forgive : World → Runner → Runner
unfolding fresh_budget
forgive w r =
    let r' = record r { up_since = none } in
    if leb_ℤ r.cfg.backoff_reset_after (up_for w r.up_since) then fresh_budget r' else r'

unfoldable pub handle_exit : World → ExitInfo → Runner → Runner
unfolding set_terminal forgive
handle_exit w info r =
    let r' = record r { last_exit = info; process = none } in
    if same_state r.state stopping
    then set_terminal stopped true r'
    else if not (should_restart r.cfg info)
    then set_terminal stopped false r'
    else record_failure w (forgive w r')

unfoldable pub handle_backoff_expired : World → Runner → Runner × List Effect
handle_backoff_expired w r = if not (same_state r.state backoff) then (r, []) else spawn_next w r

unfoldable pub arm_stop_kill : Runner → Runner
arm_stop_kill r = record r { stop_kill_timer = some r.cfg.stop_timeout }

unfoldable pub stop_signal_of : Service → ℕ
unfolding parse_signal
stop_signal_of cfg = or_default sigterm (parse_signal (codes cfg.stop_signal))

-- the child of a runner that has just become stopping: an exit that waits is consumed, so that a PID
-- which may have been reused is not signalled
unfoldable pub stop_process : World → Option Process → Runner → Runner × List Effect
unfolding arm_stop_kill
stop_process w none r = (arm_stop_kill r, [])
stop_process w (some p) r = elim p.exit [
  | some info ↦ (handle_exit w info r, [])
  | none ↦ (arm_stop_kill r, signaled p.pid (stop_signal_of r.cfg) ∷ [])
]

unfoldable pub stop_from : State → World → Runner → Runner × List Effect
unfolding stop_process set_terminal set_state
stop_from starting w r = stop_process w r.process (set_state stopping r)
stop_from running w r = stop_process w r.process (set_state stopping r)
stop_from backoff w r = (set_terminal stopped true (record r { backoff_timer = none }), [])
stop_from pending w r = (set_terminal stopped true r, [])
stop_from _ w r = (r, [])

unfoldable pub handle_stop : World → Runner → Runner × List Effect
unfolding stop_from
handle_stop w r = stop_from r.state w (record r { stopped_manually = true })

unfoldable pub kill_process : World → Option Process → Runner → Runner × List Effect
kill_process w none r = (r, [])
kill_process w (some p) r = elim p.exit [
  | some info ↦ (handle_exit w info r, [])
  | none ↦ (r, signaled p.pid sigkill ∷ [])
]

unfoldable pub handle_stop_kill_timeout : World → Runner → Runner × List Effect
unfolding kill_process
handle_stop_kill_timeout w r =
    if not (same_state r.state stopping) then (r, []) else kill_process w r.process r
