-- ===== src/Resources/Watcher/Debounce.antt =====
-- internal/resources/watcher.go: when a change is committed.
use zpinit.Base.{
  ℕ, ◌≡◌, ◌≢◌, refl, ◌⊎◌, inl, inr, true, false, none, some, [], arith, Bool-cases, Option-cases,
}
use zpinit.Base.Int.{eq_ℤ-eq}
use zpinit.Resources.Snapshot.{Snapshot}
use zpinit.Resources.Watcher.{
  Watcher, reserved, exposed_equal, changed_dimensions, offer_all, commit, cancel_debounce, observe,
  observe_now, handle_notify, handle_cool, is_due, handle_debounce, Event, notified, cool_fires,
  poll_ticks, debounce_fires, subscribed, unsubscribed, received, step,
}
use zpinit.Resources.Watcher.Invariant.{IsWellFormed}

pub exposed_equal_trans :
    (a b c : Snapshot) → exposed_equal a b ≡ true → exposed_equal b c ≡ exposed_equal a c
unfolding exposed_equal
exposed_equal_trans a b c h = ground (
  arith,
  eq_ℤ-eq a.cpu_count b.cpu_count,
  eq_ℤ-eq b.cpu_count c.cpu_count,
  eq_ℤ-eq a.cpu_count c.cpu_count,
)

changed_dimensions-nonempty :
    (a b : Snapshot) → exposed_equal b a ≡ false → changed_dimensions a b ≢ []
unfolding exposed_equal changed_dimensions
changed_dimensions-nonempty a b h =
    ground (arith, eq_ℤ-eq a.cpu_count b.cpu_count, eq_ℤ-eq b.cpu_count a.cpu_count)

-- What a commit is: the debounce timer was due, the snapshot read at that time exposes the values of
-- the pending target and not those of the old snapshot, and each subscriber with an empty channel is
-- sent it with the dimensions that moved, of which there is one.
pub record IsCommit (now : ℕ) (detected : Snapshot) (e : Event) (w after : Watcher) : Type 0 where
  pub fired : e ≡ debounce_fires
  pub due : is_due now w.debounce ≡ true
  pub target : Snapshot
  pub waited : w.pending ≡ some target
  pub confirmed : exposed_equal (reserved w detected) target ≡ true
  pub committed : after.current ≡ reserved w detected
  pub moved : exposed_equal after.current w.current ≡ false
  pub dimensions : changed_dimensions w.current after.current ≢ []
  pub told :
      after.subs
      ≡ offer_all
          (record {
            snapshot = after.current;
            dimensions = changed_dimensions w.current after.current;
          })
          w.subs

commit_lem :
    (snap : Snapshot) (w : Watcher)
    → exposed_equal snap w.current ≡ false
    → (commit snap (cancel_debounce w)).subs
      ≡ offer_all
          (record { snapshot = snap; dimensions = changed_dimensions w.current snap })
          w.subs
unfolding commit cancel_debounce
commit_lem snap w h = ground (arith, changed_dimensions-nonempty w.current snap h)

pub commit-current : (snap : Snapshot) (w : Watcher) → (commit snap w).current ≡ snap
unfolding commit
commit-current snap w = ground arith

observe-current :
    (now : ℕ) (detected : Snapshot) (w : Watcher) → (observe_now now detected w).current ≡ w.current
unfolding observe_now observe cancel_debounce
observe-current now detected w = ground arith

a_commit :
    (now : ℕ) (detected p : Snapshot) (w : Watcher)
    → IsWellFormed w
    → w.pending ≡ some p
    → is_due now w.debounce ≡ true
    → exposed_equal (reserved w detected) p ≡ true
    → IsCommit now detected debounce_fires w (commit (reserved w detected) (cancel_debounce w))
a_commit now detected p w ok e due same =
    let snap = reserved w detected in
    let fresh : exposed_equal snap w.current ≡ false =
      ground (arith, exposed_equal_trans snap p w.current same, ok.moved p e) in
    let is_snap = commit-current snap (cancel_debounce w) in
    record {
      fired = refl;
      due = due;
      target = p;
      waited = e;
      confirmed = same;
      committed = is_snap;
      moved = rw is_snap fresh;
      dimensions = rw is_snap (changed_dimensions-nonempty w.current snap fresh);
      told = rw is_snap (commit_lem snap w fresh);
    }

module _ (now : ℕ) (detected : Snapshot) (w : Watcher) where
  pub handle_debounce-commit :
      (p : Snapshot)
      → w.pending ≡ some p
      → is_due now w.debounce ≡ true
      → exposed_equal (reserved w detected) p ≡ true
      → handle_debounce now detected w ≡ commit (reserved w detected) (cancel_debounce w)
  unfolding handle_debounce
  handle_debounce-commit p e due same = ground arith

  handle_debounce-current :
      ((p : Snapshot)
        → w.pending ≡ some p
        → is_due now w.debounce ≡ true
        → exposed_equal (reserved w detected) p ≢ true)
      → (handle_debounce now detected w).current ≡ w.current
  unfolding handle_debounce cancel_debounce
  handle_debounce-current h = elim (Option-cases w.pending) [
    | inl e ↦ ground arith
    | inr (p, e) ↦ ground (arith, e, h p e)
  ]

handle_debounce_commits :
    (now : ℕ) (detected : Snapshot) (w : Watcher)
    → IsWellFormed w
    → ((handle_debounce now detected w).current ≡ w.current)
      ⊎ IsCommit now detected debounce_fires w (handle_debounce now detected w)
handle_debounce_commits now detected w ok = elim (Bool-cases (is_due now w.debounce)) [
  | inr f ↦ inl (handle_debounce-current now detected w (λ p e due same. cc))
  | inl due ↦ elim (Option-cases w.pending) [
    | inl e ↦ inl (handle_debounce-current now detected w (λ p e' due' same. cc))
    | inr (p, e) ↦ elim (Bool-cases (exposed_equal (reserved w detected) p)) [
      | inr f ↦ inl (handle_debounce-current now detected w (λ q e' due' same. ground arith))
      | inl same ↦ inr (
          rw (handle_debounce-commit now detected w p e due same)
            (a_commit now detected p w ok e due same))
    ]
  ]
]

-- In a well-formed watcher no event moves the committed snapshot but a debounce timer that is due, when
-- what is read then exposes the values of the pending target: that snapshot is committed, it differs
-- from the old one, and every subscriber with an empty channel is sent it with the dimensions that
-- moved.
pub step_commits :
    (now : ℕ) (detected : Snapshot) (e : Event) (w : Watcher)
    → IsWellFormed w
    → ((step now detected e w).current ≡ w.current)
      ⊎ IsCommit now detected e w (step now detected e w)
unfolding step
step_commits now detected notified w ok =
    inl (unfold handle_notify in ground (arith, observe-current now detected w))
step_commits now detected cool_fires w ok =
    inl (
      unfold handle_cool in ground (arith, observe-current now detected (record w { cool = none })))
step_commits now detected poll_ticks w ok = inl (observe-current now detected w)
step_commits now detected debounce_fires w ok = handle_debounce_commits now detected w ok
step_commits now detected subscribed w ok = inl refl
step_commits now detected (unsubscribed i) w ok = inl refl
step_commits now detected (received i) w ok = inl refl
