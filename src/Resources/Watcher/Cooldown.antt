-- ===== src/Resources/Watcher/Cooldown.antt =====
-- internal/resources/watcher.go: wakes by inotify are deferred, never dropped, and limited in rate.
use zpinit.Base.{
  ℕ, ◌+◌, ◌≤◌, ◌≡◌, refl, ◌∙◌, ◌⊎◌, inl, inr, Bool, true, false, Option, none, some, List, [], ◌∷◌,
  arith, Bool-cases,
}
use zpinit.Base.Int.{ℤ, pos, ◌+ℤ◌, ◌-ℤ◌, leb_ℤ, ltb_ℤ, ◌≤ℤ◌}
use zpinit.Resources.Snapshot.{Snapshot}
use zpinit.Resources.Watcher.{
  Watcher, observe_cooldown, observe, observe_now, cancel_debounce, commit, cooldown_left,
  handle_notify, handle_cool, defer_wake, is_due, handle_debounce, Event, notified, cool_fires,
  poll_ticks, debounce_fires, subscribed, unsubscribed, received, step, Tick,
}

-- a wake at this time is observed at once
pub is_open : ℕ → Watcher → Bool
is_open now w = leb_ℤ (cooldown_left now w.last_observe) (pos 0)

pub observe_now-times :
    (now : ℕ) (detected : Snapshot) (w : Watcher)
    → ((observe_now now detected w).last_observe ≡ some now)
      × ((observe_now now detected w).cool ≡ w.cool)
unfolding observe_now observe cancel_debounce
observe_now-times now detected w = ground arith

pub handle_debounce-times :
    (now : ℕ) (detected : Snapshot) (w : Watcher)
    → ((handle_debounce now detected w).last_observe ≡ w.last_observe)
      × ((handle_debounce now detected w).cool ≡ w.cool)
unfolding handle_debounce cancel_debounce commit
handle_debounce-times now detected w = ground arith

-- The last observation is not in the future, and a deferred wake is due within a cooldown.
pub record IsTimed (now : ℕ) (w : Watcher) : Type 0 where
  pub seen : (x : ℕ) → w.last_observe ≡ some x → x ≤ now
  pub owed : (c : ℤ) → w.cool ≡ some c → c ≤ℤ pos (now + observe_cooldown)

-- A wake at `since` was observed, or is owed an observation by a cooldown after it.
abbrev pub IsServed : ℕ → Watcher → Type 0
IsServed since w =
    ((x : ℕ) × (w.last_observe ≡ some x) × (since ≤ x))
    ⊎ ((c : ℤ) × (w.cool ≡ some c) × (c ≤ℤ pos (since + observe_cooldown)))

pub deferred_due :
    (now : ℕ) (last : Option ℕ)
    → ((x : ℕ) → last ≡ some x → x ≤ now)
    → pos now +ℤ cooldown_left now last ≤ℤ pos (now + observe_cooldown)
unfolding cooldown_left ◌-ℤ◌ ◌+ℤ◌
deferred_due now none seen = ground arith
deferred_due now (some x) seen = ground (arith, seen x refl)

module _ (now : ℕ) (detected : Snapshot) (w : Watcher) where
  pub notify_closed :
      ltb_ℤ (pos 0) (cooldown_left now w.last_observe) ≡ true
      → handle_notify now detected w
        ≡ record w { cool = defer_wake now (cooldown_left now w.last_observe) w.cool }
  unfolding handle_notify
  notify_closed e = rw e

  pub notify_open :
      ltb_ℤ (pos 0) (cooldown_left now w.last_observe) ≡ false
      → handle_notify now detected w ≡ observe_now now detected w
  unfolding handle_notify
  notify_open e = rw e

  pub notify-IsServed : IsTimed now w → IsServed now (handle_notify now detected w)
  notify-IsServed t = elim (Bool-cases (ltb_ℤ (pos 0) (cooldown_left now w.last_observe))) [
    | inr f ↦ inl (now, rw (notify_open f) (observe_now-times now detected w).0, omega arith)
    | inl e ↦ inr (rw (notify_closed e) (by_cases w.cool t.owed))
  ]
    where
      by_cases :
          (o : Option ℤ)
          → ((c : ℤ) → o ≡ some c → c ≤ℤ pos (now + observe_cooldown))
          → (c : ℤ) × (defer_wake now (cooldown_left now w.last_observe) o ≡ some c)
            × (c ≤ℤ pos (now + observe_cooldown))
      by_cases none h = (_, refl, deferred_due now w.last_observe t.seen)
      by_cases (some c) h = (c, refl, h c refl)

  pub cool_fires_early : is_due now w.cool ≡ false → handle_cool now detected w ≡ w
  unfolding handle_cool
  cool_fires_early e = rw e

  pub cool_fires_due :
      is_due now w.cool ≡ true
      → ((handle_cool now detected w).last_observe ≡ some now)
        × ((handle_cool now detected w).cool ≡ none)
  unfolding handle_cool
  cool_fires_due e = rw e (observe_now-times now detected (record w { cool = none }))

-- An event observes, or leaves the time of the last observation and a wake that is deferred.
pub step_times :
    (now : ℕ) (detected : Snapshot) (e : Event) (w : Watcher)
    → ((step now detected e w).last_observe ≡ some now)
      ⊎ (((step now detected e w).last_observe ≡ w.last_observe)
          × ((c : ℤ) → w.cool ≡ some c → (step now detected e w).cool ≡ some c))
unfolding step
step_times now detected notified w =
    elim (Bool-cases (ltb_ℤ (pos 0) (cooldown_left now w.last_observe))) [
      | inr f ↦ inl (rw (notify_open now detected w f) (observe_now-times now detected w).0)
      | inl e ↦ inr (rw (notify_closed now detected w e) (refl, λ c h. ground (arith, h)))
    ]
step_times now detected cool_fires w = elim (Bool-cases (is_due now w.cool)) [
  | inl e ↦ inl (cool_fires_due now detected w e).0
  | inr f ↦ inr (rw (cool_fires_early now detected w f) (refl, λ c h. h))
]
step_times now detected poll_ticks w = inl (observe_now-times now detected w).0
step_times now detected debounce_fires w =
    let same = handle_debounce-times now detected w in inr (same.0, λ c h. same.1 ∙ h)
step_times now detected subscribed w = inr (refl, λ c h. h)
step_times now detected (unsubscribed i) w = inr (refl, λ c h. h)
step_times now detected (received i) w = inr (refl, λ c h. h)

-- the times of the ticks do not go back
abbrev pub Ordered : ℕ → List Tick → Type 0
Ordered t [] = Unit
Ordered t (k ∷ rest) = (t ≤ k.now) × Ordered k.now rest
