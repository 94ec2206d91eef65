-- ===== src/Resources/Watcher/Deferred.antt =====
-- internal/resources/watcher.go: how close together observations for deferred wakes can come.
use zpinit.Base.{
  ℕ, ◌+◌, ◌≤◌, ◌≡◌, refl, sym, ◌∙◌, inl, inr, true, false, Option, none, some, List, [], ◌∷◌, arith,
  Bool-cases, Option-cases,
}
use zpinit.Base.Int.{ℤ, pos, ◌+ℤ◌, ◌-ℤ◌, ltb_ℤ, ◌≤ℤ◌}
use zpinit.Resources.Snapshot.{Snapshot}
use zpinit.Resources.Watcher.{
  Watcher, observe_cooldown, observe_now, cooldown_left, defer_wake, is_due, Event, notified,
  cool_fires, poll_ticks, debounce_fires, subscribed, unsubscribed, received, step, Tick,
}
use zpinit.Resources.Watcher.Cooldown.{
  observe_now-times, handle_debounce-times, notify_closed, notify_open, cool_fires_early,
  cool_fires_due, Ordered,
}
use zpinit.Resources.Watcher.Rate.{
  is_direct, is_deferred, times_of, Spaced, IsSpaced, HasSeen, step-HasSeen,
  times_of_direct-IsSpaced,
}

-- The last observation is not before `l`, and a deferred wake is due a cooldown after `l` or later.
abbrev CoolsAfter : ℕ → Watcher → Type 0
CoolsAfter l w = HasSeen l w × ((c : ℤ) → w.cool ≡ some c → pos (l + observe_cooldown) ≤ℤ c)

deferred_later :
    (l now x : ℕ) → l ≤ x → pos (l + observe_cooldown) ≤ℤ pos now +ℤ cooldown_left now (some x)
unfolding cooldown_left ◌-ℤ◌ ◌+ℤ◌
deferred_later l now x h = ground arith

-- a wake within the cooldown after `x` makes or keeps a timer that is due after it
defer_wake_later :
    (l now x : ℕ) (o : Option ℤ) (c : ℤ)
    → l ≤ x
    → ((b : ℤ) → o ≡ some b → pos (l + observe_cooldown) ≤ℤ b)
    → defer_wake now (cooldown_left now (some x)) o ≡ some c
    → pos (l + observe_cooldown) ≤ℤ c
defer_wake_later l now x none c h k e = ground (arith, deferred_later l now x h)
defer_wake_later l now x (some b) c h k e = ground (arith, k b refl)

cool_later :
    (l now : ℕ) (detected : Snapshot) (e : Event) (w : Watcher)
    → CoolsAfter l w
    → is_deferred now e w ≡ false
    → (c : ℤ) → (step now detected e w).cool ≡ some c
    → pos (l + observe_cooldown) ≤ℤ c
unfolding step
cool_later l now detected notified w ((x, h, k), s) f c e =
    elim (Bool-cases (ltb_ℤ (pos 0) (cooldown_left now w.last_observe))) [
      | inl t ↦
          defer_wake_later l now x w.cool c k s (rw h at (rw (notify_closed now detected w t) at e))
      | inr t ↦
          s c (sym (observe_now-times now detected w).1 ∙ rw (notify_open now detected w t) at e)
    ]
cool_later l now detected cool_fires w s f c e = s.1 c (rw (cool_fires_early now detected w f) at e)
cool_later l now detected poll_ticks w s f c e =
    s.1 c (sym (observe_now-times now detected w).1 ∙ e)
cool_later l now detected debounce_fires w s f c e =
    s.1 c (sym (handle_debounce-times now detected w).1 ∙ e)
cool_later l now detected subscribed w s f c e = s.1 c e
cool_later l now detected (unsubscribed i) w s f c e = s.1 c e
cool_later l now detected (received i) w s f c e = s.1 c e

module _ (now : ℕ) (detected : Snapshot) (w : Watcher) where
  deferred_cools :
      (e : Event)
      → is_deferred now e w ≡ true
      → ((step now detected e w).last_observe ≡ some now) × ((step now detected e w).cool ≡ none)
  unfolding step
  deferred_cools notified d = cc
  deferred_cools cool_fires d = cool_fires_due now detected w d
  deferred_cools poll_ticks d = cc
  deferred_cools debounce_fires d = cc
  deferred_cools subscribed d = cc
  deferred_cools (unsubscribed i) d = cc
  deferred_cools (received i) d = cc

  deferred_gap :
      (l : ℕ) (e : Event) → CoolsAfter l w → is_deferred now e w ≡ true → l + observe_cooldown ≤ now
  unfolding is_due
  deferred_gap l notified s d = cc
  deferred_gap l cool_fires s d = elim (Option-cases w.cool) [
    | inl e ↦ ground (arith, e)
    | inr (c, e) ↦ ground (arith, e, s.1 c e)
  ]
  deferred_gap l poll_ticks s d = cc
  deferred_gap l debounce_fires s d = cc
  deferred_gap l subscribed s d = cc
  deferred_gap l (unsubscribed i) s d = cc
  deferred_gap l (received i) s d = cc

Spaced-deferred :
    (l t : ℕ) (ticks : List Tick) (w : Watcher)
    → l ≤ t
    → Ordered t ticks
    → CoolsAfter l w
    → Spaced l (times_of is_deferred ticks w)
unfolding times_of
Spaced-deferred l t [] w le o s = tt
Spaced-deferred l t (k ∷ ticks) w le o s =
    let w' = step k.now k.detected k.event w in
    elim (Bool-cases (is_deferred k.now k.event w)) [
      | inr f ↦ rw f (
          Spaced-deferred l k.now ticks w' (omega (arith, o.0)) o.1 (
            step-HasSeen l k.now k.detected k.event w (omega (arith, o.0)) s.0,
            cool_later l k.now k.detected k.event w s f,
          ))
      | inl d ↦ rw d (
          let after = deferred_cools k.now k.detected w k.event d in
          (
            deferred_gap k.now k.detected w l k.event s d,
            Spaced-deferred k.now k.now ticks w' (omega arith) o.1
                ((k.now, after.0, omega arith), λ c e. absurd (cc (after.1, e))),
          ))
    ]

times_of_deferred-IsSpaced :
    (t : ℕ) (ticks : List Tick) (w : Watcher)
    → Ordered t ticks
    → IsSpaced (times_of is_deferred ticks w)
unfolding times_of
times_of_deferred-IsSpaced t [] w o = tt
times_of_deferred-IsSpaced t (k ∷ ticks) w o =
    let w' = step k.now k.detected k.event w in
    elim (Bool-cases (is_deferred k.now k.event w)) [
      | inr f ↦ rw f (times_of_deferred-IsSpaced k.now ticks w' o.1)
      | inl d ↦ rw d (
          let after = deferred_cools k.now k.detected w k.event d in
          Spaced-deferred k.now k.now ticks w' (omega arith) o.1
            ((k.now, after.0, omega arith), λ c e. absurd (cc (after.1, e))))
    ]

-- In any run in which time does not go back, the wakes that are observed at once are a cooldown apart
-- at least, and so are the observations for deferred wakes: in one cooldown there are two observations
-- for wakes at the most.
pub wakes-IsSpaced :
    (t : ℕ) (ticks : List Tick) (w : Watcher)
    → Ordered t ticks
    → IsSpaced (times_of is_direct ticks w) × IsSpaced (times_of is_deferred ticks w)
wakes-IsSpaced t ticks w o =
    (times_of_direct-IsSpaced t ticks w o, times_of_deferred-IsSpaced t ticks w o)

-- There can be two: a wake that comes when the cooldown is over, but before the timer of a deferred
-- wake is served, observes at once and leaves the timer, which observes again however soon it is
-- served.
pub wake_meets_timer :
    (now later : ℕ) (detected detected' : Snapshot) (w : Watcher) (c : ℤ)
    → w.cool ≡ some c
    → c ≤ℤ pos now
    → cooldown_left now w.last_observe ≤ℤ pos 0
    → now ≤ later
    → let between = step now detected notified w in
      let after = step later detected' cool_fires between in
      (between.last_observe ≡ some now) × (after.last_observe ≡ some later) × (after.cool ≡ none)
unfolding step is_due
wake_meets_timer now later detected detected' w c e due over le =
    let direct = notify_open now detected w (ground arith) in
    let kept = (observe_now-times now detected w).1 ∙ e in
    let second =
      cool_fires_due later detected' (observe_now now detected w) (rw kept (ground arith)) in
    (rw direct (observe_now-times now detected w).0, rw direct second.0, rw direct second.1)
