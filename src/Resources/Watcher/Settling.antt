-- ===== src/Resources/Watcher/Settling.antt =====
-- internal/resources/watcher.go: a change that lasts through its debounce is committed.
use zpinit.Base.{ℕ, ◌≡◌, ap, ◌∙◌, true, false, none, some, List, [], ◌∷◌, arith}
use zpinit.Base.Int.{ℤ, pos, ◌+ℤ◌, leb_ℤ}
use zpinit.Resources.Snapshot.{Snapshot, with_reserves}
use zpinit.Resources.Watcher.{
  Watcher, reserved, exposed_equal, cancel_debounce, settle_after, observe, observe_now,
  handle_notify, handle_cool, is_due, handle_debounce, Event, notified, cool_fires, poll_ticks,
  debounce_fires, step, Tick, run,
}
use zpinit.Resources.Watcher.Debounce.{exposed_equal_trans, handle_debounce-commit, commit-current}

-- The watcher waits for `p` until `due`.
pub record IsWaiting (rc : ℤ) (rm : ℕ) (current p : Snapshot) (due : ℤ) (w : Watcher) : Type 0 where
  pub target : w.pending ≡ some p
  pub timer : w.debounce ≡ some due
  pub same_current : w.current ≡ current
  pub same_cpu : w.reserve_cpu ≡ rc
  pub same_mem : w.reserve_mem ≡ rm

-- Until the time `due`, everything that is detected exposes the values of `p`.
abbrev pub IsSteady : ℤ → ℕ → Snapshot → ℤ → List Tick → Type 0
IsSteady rc rm p due [] = Unit
IsSteady rc rm p due (t ∷ rest) =
    (exposed_equal (with_reserves t.detected rc rm) p ≡ true)
    × (leb_ℤ due (pos t.now) ≡ false)
    × IsSteady rc rm p due rest

module _ (rc : ℤ) (rm : ℕ) (current p : Snapshot) (due : ℤ)
    (moved : exposed_equal p current ≡ false) where
  observe-IsWaiting :
      (now : ℕ) (detected : Snapshot) (w : Watcher)
      → IsWaiting rc rm current p due w
      → exposed_equal (with_reserves detected rc rm) p ≡ true
      → IsWaiting rc rm current p due (observe_now now detected w)
  unfolding observe_now observe
  observe-IsWaiting now detected w h same = ground (
    arith,
    h.target,
    h.timer,
    h.same_current,
    h.same_cpu,
    h.same_mem,
    exposed_equal_trans (with_reserves detected rc rm) p current same,
  )

  step-IsWaiting :
      (now : ℕ) (detected : Snapshot) (e : Event) (w : Watcher)
      → IsWaiting rc rm current p due w
      → exposed_equal (with_reserves detected rc rm) p ≡ true
      → leb_ℤ due (pos now) ≡ false
      → IsWaiting rc rm current p due (step now detected e w)
  unfolding step handle_notify handle_cool handle_debounce is_due
  step-IsWaiting now detected notified w h same early =
      ground (arith, h.target, h.timer, observe-IsWaiting now detected w h same)
  step-IsWaiting now detected cool_fires w h same early = ground (
    arith,
    h.target,
    h.timer,
    observe-IsWaiting now detected (record w { cool = none })
        (record {
          target = h.target;
          timer = h.timer;
          same_current = h.same_current;
          same_cpu = h.same_cpu;
          same_mem = h.same_mem;
        })
        same,
  )
  step-IsWaiting now detected poll_ticks w h same early = observe-IsWaiting now detected w h same
  step-IsWaiting now detected debounce_fires w h same early = ground (arith, h.timer)
  step-IsWaiting now detected _ w h same early = record {
    target = h.target;
    timer = h.timer;
    same_current = h.same_current;
    same_cpu = h.same_cpu;
    same_mem = h.same_mem;
  }

  run-IsWaiting :
      (ticks : List Tick) (w : Watcher)
      → IsWaiting rc rm current p due w
      → IsSteady rc rm p due ticks
      → IsWaiting rc rm current p due (run ticks w)
  unfolding run
  run-IsWaiting [] w h s = h
  run-IsWaiting (t ∷ ticks) w h s =
      run-IsWaiting ticks _ (step-IsWaiting t.now t.detected t.event w h s.0 s.1) s.2

  fires_at_end :
      (later : ℕ) (confirmed : Snapshot) (w : Watcher)
      → IsWaiting rc rm current p due w
      → leb_ℤ due (pos later) ≡ true
      → exposed_equal (with_reserves confirmed rc rm) p ≡ true
      → (handle_debounce later confirmed w).current ≡ with_reserves confirmed rc rm
  unfolding is_due
  fires_at_end later confirmed w h end same =
      let snap : reserved w confirmed ≡ with_reserves confirmed rc rm =
        cc (h.same_cpu, h.same_mem) in
      ap (λ (x : Watcher). x.current)
        (handle_debounce-commit later confirmed w p h.target (ground (arith, h.timer))
          (cc (snap, same)))
      ∙ commit-current (reserved w confirmed) (cancel_debounce w)
      ∙ snap

starts-IsWaiting :
    (now : ℕ) (detected : Snapshot) (w : Watcher)
    → w.pending ≡ none
    → exposed_equal (reserved w detected) w.current ≡ false
    → let p = reserved w detected in
      IsWaiting w.reserve_cpu w.reserve_mem w.current p
        (pos now +ℤ settle_after w p)
        (observe_now now detected w)
unfolding observe_now observe settle_after
starts-IsWaiting now detected w idle moved = ground arith

-- Nothing is pending and a tick detects changed values. If everything detected up to the end of the
-- debounce, down_after where a value fell and up_after otherwise, exposes the same values, and so does
-- what is detected when the timer fires at its end or later, then that snapshot is committed.
pub lasting_change_commits :
    (now later : ℕ) (detected confirmed : Snapshot) (ticks : List Tick) (w : Watcher)
    → w.pending ≡ none
    → exposed_equal (reserved w detected) w.current ≡ false
    → let p = reserved w detected in
      let due = pos now +ℤ settle_after w p in
      IsSteady w.reserve_cpu w.reserve_mem p due ticks
      → leb_ℤ due (pos later) ≡ true
      → exposed_equal (reserved w confirmed) p ≡ true
      → (step later confirmed debounce_fires (run ticks (step now detected poll_ticks w))).current
        ≡ reserved w confirmed
unfolding step
lasting_change_commits now later detected confirmed ticks w idle moved steady end same =
    let p = reserved w detected in
    let due = pos now +ℤ settle_after w p in
    let h =
      run-IsWaiting w.reserve_cpu w.reserve_mem w.current p due moved ticks _
        (starts-IsWaiting now detected w idle moved) steady in
    fires_at_end w.reserve_cpu w.reserve_mem w.current p due moved later confirmed _ h end same
