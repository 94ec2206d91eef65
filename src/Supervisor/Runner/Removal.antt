-- ===== src/Supervisor/Runner/Removal.antt =====
-- internal/supervisor/runner.go: the latches that refuse starts.
use zpinit.Base.{◌≡◌, refl, ◌∙◌, ◌⊎◌, Bool, true, false, none, List, [], ◌∷◌, not, arith}
use zpinit.Supervisor.Runner.State.{
  Runner, is_terminal, mark_removing, clear_removing, mark_ready, observe, set_shutting_down,
  set_base_env,
}
use zpinit.Supervisor.Runner.Handlers.{World, handle_start, handle_stop, handle_stop_kill_timeout}
use zpinit.Supervisor.Runner.Loop.{
  Event, start, stop, child_exits, backoff_fires, stop_kill_fires, unlatch_removing, latch_shutdown,
  deliver, step, run,
}

-- A runner that has stopped behind a latch.
pub record IsParked (r : Runner) : Type 0 where
  pub latched : (r.removing ≡ true) ⊎ (r.shutting_down ≡ true)
  pub ended : is_terminal r.state ≡ true
  pub no_child : r.process ≡ none
  pub no_wait : r.backoff_timer ≡ none

-- the events that lift a latch
abbrev pub lifts : Event → Bool
lifts unlatch_removing = true
lifts (latch_shutdown on) = not on
lifts _ = false

step-IsParked :
    (w : World) (e : Event) (r : Runner)
    → IsParked r
    → lifts e ≡ false
    → IsParked (step w e r).0 × ((step w e r).0.state ≡ r.state) × ((step w e r).1 ≡ [])
unfolding step handle_start handle_stop deliver mark_removing mark_ready observe set_shutting_down
    set_base_env clear_removing handle_stop_kill_timeout
step-IsParked w start r p n = ground arith
step-IsParked w stop r p n = ground arith
step-IsParked w child_exits r p n = ground arith
step-IsParked w backoff_fires r p n = ground arith
step-IsParked w stop_kill_fires r p n = ground arith
step-IsParked w unlatch_removing r p n = cc
step-IsParked w _ r p n = ground arith

abbrev pub NeverLifts : List (World × Event) → Type 0
NeverLifts [] = Unit
NeverLifts ((w, e) ∷ rest) = (lifts e ≡ false) × NeverLifts rest

-- A runner that has ended behind one of the latches stays as it is under any events that lift none:
-- no start, timer or late exit brings it out of its terminal state, and no child is spawned or
-- signalled.
pub run-IsParked :
    (events : List (World × Event)) (r : Runner)
    → IsParked r
    → NeverLifts events
    → IsParked (run events r).0 × ((run events r).0.state ≡ r.state) × ((run events r).1 ≡ [])
unfolding run
run-IsParked [] r p n = (p, refl, refl)
run-IsParked ((w, e) ∷ rest) r p n =
    let one = step-IsParked w e r p n.0 in
    let more = run-IsParked rest (step w e r).0 one.0 n.1 in
    (more.0, more.1 ∙ one.1, cc (one.2, more.2))
