-- ===== src/Samples/Lifecycle.antt =====
-- Boot, readiness, waits and teardown of two services.
use mathlib.Core.List.{Memᴰ}
use zpinit.Base.{
  ℕ, ◌≤◌, ◌≡◌, refl, ◌⊎◌, ◌||◌, ◌&&◌, not, true, false, none, some, [], ◌∷◌, ◌++◌, arith, ◌==◌,
}
use zpinit.Supervisor.Replica.Expand.{All}
use zpinit.Supervisor.Runner.State.{
  State, pending, running, stopping, Runner, is_terminal, same_state,
}
use zpinit.Supervisor.Runner.Loop.{stop, child_exits, delivered, step, run}
use zpinit.Supervisor.Runner.Waiting.{Events}
use zpinit.Supervisor.Runner.Invariant.{IsWellFormed}
use zpinit.Supervisor.Readiness.{
  Attempt, ReadyResult, is_ready, Limits, wait_ready, wait_ready_ends,
}
use zpinit.Supervisor.Boot.{Answers, boot}
use zpinit.Supervisor.Boot.Order.{IsSoft, FailsAt, boot_outcome}
use zpinit.Supervisor.StopAll.{signals, awaits, stop_all}
use zpinit.Supervisor.StopAll.Order.{IsDescending}
use zpinit.Supervisor.StopAll.Teardown.{stop_all_order}
use zpinit.Supervisor.Watch.{ended, watch_exit, is_stop, watch_exit_edge}
use zpinit.Samples.Data.{service, runner, child, crash_of, web_running, world, orchestrator}
use zpinit.Supervisor.Runner.Handlers.{handle_exit}
use zpinit.Supervisor.Registry.{runner_ltb}
use zpinit.Supervisor.Runner.Handlers.{is_spent}

-- the stop falls between the subscription and the look
abbrev before_look : Events
before_look = (world, stop) ∷ []

abbrev after_look : Events
after_look = (world, delivered (crash_of 100)) ∷ (world, child_exits) ∷ []

-- the third attempt passes
abbrev attempts : ℕ → Attempt
attempts n = record { took = 3; passes = n == 2; timer_first = false }

abbrev limits : Limits
limits = record { interval = 10; deadline = 100; ends_at = none; by_deadline = false }

wait_ready_ends_example :
    (result : ReadyResult) × (wait_ready 12 limits attempts 0 0 ≡ some result)
    × (result ≡ is_ready → (m : ℕ) × (0 ≤ m) × (m ≤ 11) × ((attempts m).passes ≡ true))
wait_ready_ends_example = wait_ready_ends 11 limits attempts 0 0 (omega arith) (omega arith)

abbrev a : Runner
a = runner (service "a.toml" "alpha" "/bin/a") 0 running (some (child none))

abbrev b : Runner
b = runner (service "b.toml" "beta" "/bin/b") 0 running (some (child none))

-- every start is accepted and the runner runs
abbrev well : Runner → Answers
well r = record {
  start = some none;
  found = pending;
  sent = running ∷ [];
  later = r;
  probe = is_ready;
  registered = true;
}

boot_outcome_example :
    let run = boot well (a ∷ b ∷ []) in
    (All (IsSoft well) (a ∷ b ∷ []) × (run.started ≡ a ∷ b ∷ []) × (run.failure ≡ none))
    ⊎ ((f : FailsAt well (a ∷ b ∷ [])) × (run.started ≡ f.before ++ f.culprit ∷ [])
        × (run.failure ≡ some (f.culprit, f.error)))
boot_outcome_example = boot_outcome well (a ∷ b ∷ [])

stop_all_order_example :
    let o = orchestrator (a.cfg ∷ b.cfg ∷ []) (a ∷ b ∷ []) in
    IsDescending (stop_all (λ r. r) o).1
    × ((r : Runner)
        → Memᴰ r o.runners
        → is_terminal r.state ≡ false
        → Memᴰ (signals r) (stop_all (λ r. r) o).1 × Memᴰ (awaits r) (stop_all (λ r. r) o).1)
    × ((stop_all (λ r. r) o).0.stopping ≡ true)
    × All (λ (r : Runner). r.shutting_down ≡ true) (stop_all (λ r. r) o).0.runners
unfolding runner_ltb
stop_all_order_example =
    stop_all_order (λ r. r) (orchestrator (a.cfg ∷ b.cfg ∷ []) (a ∷ b ∷ [])) ((refl, tt), (tt, tt))

abbrev web_stopping : Runner
web_stopping = record web_running { state = stopping; process = some (child (some (crash_of 100))) }

web_stopping-IsWellFormed : IsWellFormed web_stopping
unfolding is_spent
web_stopping-IsWellFormed = record {
  child = refl;
  waits = refl;
  kills = λ e. cc;
  settled = refl;
  budget = refl;
  ended = λ e. cc;
}

watch_exit_edge_example :
    watch_exit (ended true (step world child_exits web_stopping).0.last_terminal true ∷ [])
    ≡ not (is_stop child_exits || same_state web_stopping.state stopping) || (true && watch_exit [])
unfolding step handle_exit
watch_exit_edge_example =
    watch_exit_edge world child_exits web_stopping true [] web_stopping-IsWellFormed refl refl
