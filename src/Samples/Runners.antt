-- ===== src/Samples/Runners.antt =====
-- The runner's theorems on a web server.
use zpinit.Base.{ℕ, ◌*◌, ◌≤◌, ◌≡◌, refl, ◌↔◌, inl, true, false, none, some, List, [], ◌∷◌, arith}
use zpinit.Base.Int.{pos}
use zpinit.Config.Types.{crash_budget}
use zpinit.Supervisor.Replica.Expand.{All}
use zpinit.Supervisor.Runner.State.{
  running, stopping, stopped, fatal, Runner, new_runner_for_replica,
}
use zpinit.Supervisor.Runner.Handlers.{
  World, handle_start, is_spent, backoff_step, fresh_budget, stop_signal_of, sigkill, signaled,
  up_for, handle_exit, should_restart, record_failure, handle_backoff_expired, spawn_next,
}
use zpinit.Supervisor.Runner.Loop.{
  Event, start, stop, child_exits, backoff_fires, stop_kill_fires, delivered, step, run, deliver,
  deliver_to,
}
use zpinit.Supervisor.Runner.Invariant.{IsWellFormed, run-IsWellFormed}
use zpinit.Supervisor.Runner.Effects.{IsAllowed, step-IsAllowed}
use zpinit.Supervisor.Runner.Removal.{IsParked, run-IsParked}
use zpinit.Supervisor.Runner.CrashLoop.{
  IsCrash, Crashes, none_yet, again, crash_cycle, crash_loop_budget,
}
use zpinit.Supervisor.Runner.Stopping.{stop_escalates, start_while_stopping}
use zpinit.Supervisor.Runner.Backoff.{IsTenth, steps, capped, backoff_delays}
use zpinit.Samples.Data.{web, runner, child, crash_of, web_running, world}

abbrev events : List (World × Event)
events =
    (world, start)
    ∷ (world, delivered (crash_of 100))
    ∷ (world, child_exits)
    ∷ (world, backoff_fires)
    ∷ (world, stop)
    ∷ (world, stop_kill_fires)
    ∷ []

run-IsWellFormed_example :
    IsWellFormed (run events (new_runner_for_replica web web ("A=1" ∷ []) 0)).0
run-IsWellFormed_example = run-IsWellFormed events web web ("A=1" ∷ []) 0

web_running-IsWellFormed : IsWellFormed web_running
unfolding is_spent
web_running-IsWellFormed = record {
  child = refl;
  waits = refl;
  kills = λ e. cc;
  settled = refl;
  budget = refl;
  ended = λ e. cc;
}

step-IsAllowed_example :
    All (IsAllowed web_running (step world stop web_running).0) (step world stop web_running).1
step-IsAllowed_example = step-IsAllowed world stop web_running web_running-IsWellFormed

abbrev removed : Runner
removed = record (runner web 0 stopped none) { removing = true }

removed-IsParked : IsParked removed
removed-IsParked = record { latched = inl refl; ended = refl; no_child = refl; no_wait = refl }

run-IsParked_example :
    IsParked (run events removed).0
    × ((run events removed).0.state ≡ stopped)
    × ((run events removed).1 ≡ [])
run-IsParked_example =
    run-IsParked events removed removed-IsParked (refl, (refl, (refl, (refl, (refl, (refl, tt))))))

abbrev crashed : Runner
crashed = runner web 0 running (some (child (some (crash_of 100))))

first-IsCrash : IsCrash world (crash_of 100) web_running
unfolding up_for
first-IsCrash = record {
  alive = refl;
  early = refl;
  restarts = inl refl;
  next_pid = 100;
  spawns = refl;
}

abbrev after_one : Runner
after_one = crash_cycle world (crash_of 100) web_running

second-IsCrash : IsCrash world (crash_of 100) after_one
unfolding crash_cycle run step deliver deliver_to handle_exit record_failure backoff_step
    handle_backoff_expired spawn_next up_for is_spent should_restart
second-IsCrash = record {
  alive = refl;
  early = refl;
  restarts = inl refl;
  next_pid = 100;
  spawns = refl;
}

abbrev after_two : Runner
after_two = crash_cycle world (crash_of 100) after_one

two-Crashes : Crashes 2 web_running after_two
two-Crashes =
    again world (crash_of 100) (again world (crash_of 100) none_yet first-IsCrash) second-IsCrash

abbrev two : ℕ
two = 2

-- the budget of two is spent
crash_loop_budget_example : (two ≤ 2) × ((after_two.state ≡ fatal) ↔ (two ≡ 2))
unfolding crash_budget
crash_loop_budget_example = (crash_loop_budget refl refl two-Crashes).0 1 refl

stop_escalates_example :
    let stopped_at = run ((world, stop) ∷ []) web_running in
    let (after, effects) =
      run
        ((world, stop)
          ∷ (world, stop_kill_fires)
          ∷ (world, delivered (crash_of 100))
          ∷ (world, child_exits)
          ∷ [])
        web_running in
    (stopped_at.0.stop_kill_timer ≡ some (pos 10000))
    × (effects ≡ signaled 100 (stop_signal_of web) ∷ signaled 100 sigkill ∷ [])
    × (after.state ≡ stopped)
    × (after.last_terminal.manual ≡ true)
    × (after.process ≡ none)
    × (after.stop_kill_timer ≡ none)
    × (after.last_exit ≡ crash_of 100)
stop_escalates_example =
    stop_escalates world world world world web_running (crash_of 100) web_running-IsWellFormed refl
      refl

abbrev ending : Runner
ending = runner web 0 stopping (some (child (some (crash_of 100))))

start_while_stopping_example :
    let (after, effects) = run ((world, start) ∷ (world, child_exits) ∷ []) ending in
    ((handle_start world ending).1 ≡ none)
    × (effects ≡ [])
    × (after.state ≡ stopped)
    × (after.last_terminal.manual ≡ true)
    × (after.stopped_manually ≡ false)
start_while_stopping_example =
    start_while_stopping world world ending (child (some (crash_of 100))) (crash_of 100) refl refl
      refl refl refl

world-IsTenth : IsTenth world
world-IsTenth = record { tenth = λ d. omega arith }

backoff_delays_example :
    (y : ℕ) × ((backoff_step world (steps world 4 (fresh_budget web_running))).0 ≡ pos y)
    × (9 * capped 1000 30000 4 ≤ 10 * y)
    × (10 * y ≤ 11 * capped 1000 30000 4)
backoff_delays_example =
    backoff_delays world web_running 1000 30000 4 world-IsTenth refl refl (omega arith)
      (omega arith) (omega arith)
