-- ===== src/Samples/Watching.antt =====
-- The watcher's theorems on a container that gets a third CPU.
use zpinit.Base.{ℕ, ◌≤◌, ◌≡◌, refl, ◌⊎◌, true, none, some, List, [], ◌∷◌, arith}
use zpinit.Base.Int.{pos}
use zpinit.Samples.Data.{cpus}
use zpinit.Resources.Watcher.{
  exposed_equal, Watcher, new_watcher, set_poll_interval, start, reserved, notified, cool_fires,
  poll_ticks, debounce_fires, step, Tick, run,
}
use zpinit.Resources.Watcher.Invariant.{IsWellFormed, start-IsWellFormed}
use zpinit.Resources.Watcher.Debounce.{IsCommit, step_commits}
use zpinit.Resources.Watcher.Settling.{lasting_change_commits}
use zpinit.Resources.Watcher.Served.{wake_is_served}
use zpinit.Resources.Watcher.Rate.{is_direct, is_deferred, times_of, IsSpaced}
use zpinit.Resources.Watcher.Deferred.{wakes-IsSpaced}
use zpinit.Resources.Snapshot.{with_reserves}
use zpinit.Base.Int.{◌+ℤ◌}
use zpinit.Resources.Watcher.{settle_after}

-- a watcher of two CPUs with one subscriber
abbrev two_cpus : Watcher
two_cpus = record {
  reserve_cpu = pos 0;
  reserve_mem = 0;
  up_after = pos 5000000000;
  down_after = pos 30000000000;
  poll_every = pos 900000000000;
  current = cpus 2;
  subs = [] ∷ [];
  started = true;
  pending = none;
  debounce = none;
  last_observe = none;
  cool = none;
}

abbrev ticks : List Tick
ticks =
    record { now = 10; detected = cpus 3; event = notified }
    ∷ record { now = 20; detected = cpus 3; event = notified }
    ∷ record { now = 100000010; detected = cpus 3; event = cool_fires }
    ∷ []

start-IsWellFormed_example : IsWellFormed (
    run ticks
      (start (cpus 2) (set_poll_interval (pos 60) (new_watcher (pos 0) 0 (pos 0) (pos 0)))).0)
start-IsWellFormed_example = start-IsWellFormed (pos 0) 0 (pos 0) (pos 0) (pos 60) (cpus 2) ticks

abbrev waiting : Watcher
waiting = record two_cpus { pending = some (cpus 3); debounce = some (pos 5000000010) }

waiting-IsWellFormed : IsWellFormed waiting
unfolding exposed_equal
waiting-IsWellFormed = record {
  armed = refl;
  moved = λ p e. ground (arith, e);
  slots = (omega arith, tt);
}

step_commits_example :
    ((step 5000000010 (cpus 3) debounce_fires waiting).current ≡ waiting.current)
    ⊎ IsCommit 5000000010
        (cpus 3)
        debounce_fires
        waiting
        (step 5000000010 (cpus 3) debounce_fires waiting)
step_commits_example = step_commits 5000000010 (cpus 3) debounce_fires waiting waiting-IsWellFormed

lasting_change_commits_example :
    (step 5000000010
      (cpus 3)
      debounce_fires
      (run ticks (step 10 (cpus 3) poll_ticks two_cpus))).current
    ≡ reserved two_cpus (cpus 3)
unfolding exposed_equal with_reserves ◌+ℤ◌ settle_after
lasting_change_commits_example =
    lasting_change_commits 10 5000000010 (cpus 3) (cpus 3) ticks two_cpus refl refl
      (refl, refl, (refl, refl, (refl, refl, tt))) refl refl

wake_is_served_example :
    let woken = run ticks (step 5 (cpus 3) notified (run [] two_cpus)) in
    (x : ℕ) × ((step 100000050 (cpus 3) cool_fires woken).last_observe ≡ some x) × (5 ≤ x)
wake_is_served_example =
    wake_is_served 5 100000050 (cpus 3) (cpus 3) [] ticks two_cpus refl refl (omega arith)
      (omega arith, (omega arith, (omega arith, tt))) (omega arith)

wakes-IsSpaced_example :
    IsSpaced (times_of is_direct ticks two_cpus) × IsSpaced (times_of is_deferred ticks two_cpus)
wakes-IsSpaced_example =
    wakes-IsSpaced 0 ticks two_cpus (omega arith, (omega arith, (omega arith, tt)))

abbrev deferred : Watcher
deferred = record two_cpus { last_observe = some 10; cool = some (pos 100000010) }
