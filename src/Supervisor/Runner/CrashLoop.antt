-- ===== src/Supervisor/Runner/CrashLoop.antt =====
-- internal/supervisor/runner.go: a service that keeps crashing runs through its budget.
use zpinit.Base.{
  ℕ, zero, suc, ◌+◌, ◌≤◌, ◌≡◌, refl, ◌⊎◌, ◌↔◌, inl, false, none, some, [], ◌∷◌, arith,
  if◌then◌else◌,
}
use zpinit.Base.Int.{pos, leb_ℤ}
use zpinit.Config.Types.{crash_budget}
use zpinit.Reaper.Exit.{ExitInfo}
use zpinit.Supervisor.Runner.State.{running, fatal, Runner}
use zpinit.Supervisor.Runner.Handlers.{
  World, is_spent, up_for, spawn_next, handle_backoff_expired, handle_exit, record_failure,
  backoff_step,
}
use zpinit.Supervisor.Runner.Loop.{
  child_exits, backoff_fires, delivered, deliver, deliver_to, step, run,
}
use zpinit.Supervisor.Runner.Invariant.{is_spent_zero}
use zpinit.Supervisor.Runner.Policy.{Restarts, should_restart-Restarts}

-- The exit of the child is delivered and received, and the backoff, if any, runs out.
unfoldable pub crash_cycle : World → ExitInfo → Runner → Runner
crash_cycle w info r = (run ((w, delivered info) ∷ (w, child_exits) ∷ (w, backoff_fires) ∷ []) r).0

-- One crash of a running service: its child ends before the backoff is reset, in a way after which
-- the policy restarts, and the next child can be spawned.
pub record IsCrash (w : World) (info : ExitInfo) (r : Runner) : Type 0 where
  pub alive : r.process ≡ some (record { pid = info.pid; exit = none })
  pub early : leb_ℤ r.cfg.backoff_reset_after (up_for w r.up_since) ≡ false
  pub restarts : Restarts r.cfg info
  pub next_pid : ℕ
  pub spawns : w.spawn r.cfg r.base_env ≡ some next_pid

-- `n` such crashes in a row lead from the first runner to the second.
pub data Crashes : ℕ → Runner → Runner → Type 0 where
  none_yet : {r : Runner} → Crashes zero r r
  again :
      {n : ℕ} {r s : Runner} (w : World) (info : ExitInfo)
      → Crashes n r s
      → IsCrash w info s
      → Crashes (suc n) r (crash_cycle w info s)

crash_cycle_lem :
    (w : World) (info : ExitInfo) (r : Runner)
    → r.state ≡ running
    → IsCrash w info r
    → let after = crash_cycle w info r in
      (after.crashes ≡ r.crashes + 1)
      × (after.cfg ≡ r.cfg)
      × (after.state ≡ (if is_spent r.cfg (r.crashes + 1) then fatal else running))
      × (after.state ≡ fatal → after.process ≡ none)
unfolding crash_cycle run step deliver deliver_to handle_exit record_failure backoff_step
    handle_backoff_expired spawn_next
crash_cycle_lem w info r s c =
    ground (arith, should_restart-Restarts r.cfg info c.restarts, c.alive, c.early, c.spawns)

-- What is known of a runner `n` crashes after a fresh start of `r`.
record IsAfter (n : ℕ) (r s : Runner) : Type 0 where
  counted : s.crashes ≡ n
  same_cfg : s.cfg ≡ r.cfg
  where_to : (s.state ≡ running) ⊎ ((s.state ≡ fatal) × (s.process ≡ none))
  by_budget : s.state ≡ (if is_spent r.cfg n then fatal else running)
  before : (m : ℕ) → n ≡ suc m → is_spent r.cfg m ≡ false

IsAfter-again :
    {n : ℕ} {r s : Runner} (w : World) (info : ExitInfo)
    → IsAfter n r s
    → IsCrash w info s
    → s.state ≡ running
    → IsAfter (suc n) r (crash_cycle w info s)
IsAfter-again {n} {r} {s} w info ih c alive = record {
  counted = ground (arith, crash_cycle_lem w info s alive c);
  same_cfg = ground (arith, crash_cycle_lem w info s alive c);
  where_to = ground (arith, crash_cycle_lem w info s alive c);
  by_budget = ground (arith, crash_cycle_lem w info s alive c);
  before = λ m e. ground arith;
}

Crashes-IsAfter :
    {n : ℕ} {r s : Runner} → r.state ≡ running → r.crashes ≡ 0 → Crashes n r s → IsAfter n r s
Crashes-IsAfter {r = r} alive c0 none_yet = record {
  counted = c0;
  same_cfg = refl;
  where_to = inl alive;
  by_budget = rw (is_spent_zero r.cfg) alive;
  before = λ m e. absurd (omega arith);
}
Crashes-IsAfter alive c0 (again w info cs c) =
    let ih = Crashes-IsAfter alive c0 cs in IsAfter-again w info ih c (ground (arith, c.alive))

-- From a running service with no crashes on its count, after `n` crashes in a row: with a budget
-- b + 1 there are at most b + 1 of them, and the service is fatal exactly at the last; with the
-- budget 0 it never becomes fatal.
pub crash_loop_budget :
    {n : ℕ} {r s : Runner}
    → r.state ≡ running
    → r.crashes ≡ 0
    → Crashes n r s
    → ((b : ℕ) → crash_budget r.cfg ≡ pos (suc b) → (n ≤ suc b) × ((s.state ≡ fatal) ↔ (n ≡ suc b)))
      × (crash_budget r.cfg ≡ pos 0 → s.state ≡ running)
unfolding is_spent
crash_loop_budget {n = zero} alive c0 cs =
    let k = Crashes-IsAfter alive c0 cs in
    (
      λ b e. (omega arith, (λ f. ground (arith, k.by_budget), λ f. absurd (omega arith))),
      λ e. ground (arith, k.by_budget),
    )
crash_loop_budget {n = suc m} alive c0 cs =
    let k = Crashes-IsAfter alive c0 cs in
    (
      λ b e. (
        ground (arith, k.before m refl),
        (λ f. ground (arith, k.before m refl, k.by_budget), λ f. ground (arith, k.by_budget)),
      ),
      λ e. ground (arith, k.by_budget),
    )
