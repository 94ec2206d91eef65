-- ===== src/Supervisor/Runner/Waits.antt =====
-- internal/supervisor/runner.go: the calls that wait for a state of the runner, and those that answer from
-- its process. After it has subscribed, a wait looks at the state and then takes states from its channel;
-- when the channel holds nothing more and the context ends, it gives up. Waiting has the whole calls.
use zpinit.Base.{ℕ, Bool, true, false, Option, none, some, List, [], ◌∷◌, if◌then◌else◌}
use zpinit.Supervisor.Runner.State.{State, running, fatal, stopping, stopped, Process, is_terminal}
use zpinit.Supervisor.Runner.Handlers.{Effect, signaled}

-- the first answer that a look at the states gives
unfoldable pub first_answer {ℓ} : {A : Type ℓ} → (State → Option A) → A → List State → A
first_answer check gives_up [] = gives_up
first_answer check gives_up (s ∷ rest) =
    let later = first_answer check gives_up rest in elim (check s) [ some a ↦ a | none ↦ later ]

pub data BootResult : Type 0 where
  booted is_fatal was_stopped canceled : BootResult

abbrev pub boot_check : State → Option BootResult
boot_check running = some booted
boot_check fatal = some is_fatal
boot_check stopped = some was_stopped
boot_check stopping = some was_stopped
boot_check _ = none

-- the rest of WaitBootResult, from the state that it finds and the states that it is sent
unfoldable pub boot_result_from : State → List State → BootResult
unfolding first_answer
boot_result_from now sent = first_answer boot_check canceled (now ∷ sent)

abbrev pub terminal_check : State → Option (Option State)
terminal_check s = if is_terminal s then some (some s) else none

-- the rest of WaitTerminal; `none` is the end of its context
unfoldable pub terminal_from : State → List State → Option State
unfolding first_answer
terminal_from now sent = first_answer terminal_check none (now ∷ sent)

abbrev pub left_check : State → Option Bool
left_check s = if is_terminal s then none else some true

-- the rest of WaitLeftTerminal; false is the end of its context
unfoldable pub left_terminal_from : State → List State → Bool
unfolding first_answer
left_terminal_from now sent = first_answer left_check false (now ∷ sent)

pub data SignalError : Type 0 where
  not_running exit_pending : SignalError

unfoldable pub signal_group : ℕ → Option Process → Option SignalError × List Effect
signal_group sig none = (some not_running, [])
signal_group sig (some p) = elim p.exit [
  | some info ↦ (some exit_pending, [])
  | none ↦ (none, signaled p.pid sig ∷ [])
]

-- sendCtx and the calls of it: `none` is an answer that did not come in time
pub data SendError {ℓ} (E : Type ℓ) : Type ℓ where
  timed_out : SendError E
  refused : E → SendError E

abbrev pub send_result {ℓ} : {E : Type ℓ} → Option (Option E) → Option (SendError E)
send_result none = some timed_out
send_result (some none) = none
send_result (some (some e)) = some (refused e)

pub data RestartError {ℓ} (E : Type ℓ) : Type ℓ where
  stop_failed : SendError E → RestartError E
  did_not_stop : State → RestartError E
  start_failed : SendError E → RestartError E

-- RestartCtx: the answers to the stop, to the wait for its end, and to the start; the state is the one
-- that the runner is in when the wait gives up
unfoldable pub restart_result {ℓ} :
    {E : Type ℓ}
    → Option (Option E)
    → Option State
    → State
    → Option (Option E)
    → Option (RestartError E)
restart_result stop_answer ended now start_answer = elim (send_result stop_answer) [
  | some e ↦ some (stop_failed e)
  | none ↦ elim ended [
    | none ↦ some (did_not_stop now)
    | some s ↦ elim (send_result start_answer) [ some e ↦ some (start_failed e) | none ↦ none ]
  ]
]
