-- ===== src/Supervisor/Runner/Observing.antt =====
-- internal/supervisor/runner.go: why a wait misses no state.
use zpinit.Base.{ℕ, arith}
use zpinit.Supervisor.Runner.State.{State, Runner, set_state}
use zpinit.Supervisor.Runner.Handlers.{World}
use zpinit.Supervisor.Runner.Channel.{Follows, broadcast-Follows}

-- A state change, seen from the channel.
set_state-Follows :
    (k : ℕ) (now s : State) (r : Runner)
    → Follows k now r.state r.observers
    → Follows k now (set_state s r).state (set_state s r).observers
unfolding set_state
set_state-Follows k now s r f = ground (arith, broadcast-Follows k now s r.observers f.there)

module _ (k : ℕ) (now : State) (w : World) where
  abbrev Told : Runner → Type 0
  Told r = Follows k now r.state r.observers
