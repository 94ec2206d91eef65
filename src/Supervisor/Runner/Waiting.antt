-- ===== src/Supervisor/Runner/Waiting.antt =====
-- internal/supervisor/runner.go: WaitBootResult, WaitTerminal and WaitLeftTerminal beside the run of the
-- runner. The events `before` fall between the subscription and the look at the state, and `after` between
-- the look and the end of the context.
use zpinit.Base.{Bool, Option, List, length}
use zpinit.Supervisor.Runner.State.{State, Runner, observe}
use zpinit.Supervisor.Runner.Handlers.{World}
use zpinit.Supervisor.Runner.Loop.{Event, run}
use zpinit.Supervisor.Runner.Waits.{BootResult, boot_result_from, terminal_from, left_terminal_from}
use zpinit.Supervisor.Runner.Channel.{channel}

abbrev pub Events : Type 0
Events = List (World × Event)

-- the runner at the look, which comes after the subscription
abbrev pub at_look : Events → Runner → Runner
at_look before r = (run before (observe r)).0

-- the states that the channel of the subscription gets until the context ends
abbrev pub sent_states : Events → Events → Runner → List State
sent_states before after r = channel (length r.observers) (run after (at_look before r)).0.observers

unfoldable pub wait_boot_result : Events → Events → Runner → BootResult
unfolding observe run boot_result_from
wait_boot_result before after r =
    boot_result_from (at_look before r).state (sent_states before after r)

unfoldable pub wait_terminal : Events → Events → Runner → Option State
unfolding observe run terminal_from
wait_terminal before after r = terminal_from (at_look before r).state (sent_states before after r)

unfoldable pub wait_left_terminal : Events → Events → Runner → Bool
unfolding observe run left_terminal_from
wait_left_terminal before after r =
    left_terminal_from (at_look before r).state (sent_states before after r)
