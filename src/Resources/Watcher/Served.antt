-- ===== src/Resources/Watcher/Served.antt =====
-- internal/resources/watcher.go: no wake is dropped.
use zpinit.Base.{
  ℕ, ◌+◌, ◌≤◌, ◌≡◌, refl, sym, ◌∙◌, inl, inr, true, Option, none, some, List, [], ◌∷◌, arith,
  Bool-cases,
}
use zpinit.Base.Int.{ℤ, pos, ltb_ℤ, ◌≤ℤ◌}
use zpinit.Resources.Snapshot.{Snapshot}
use zpinit.Resources.Watcher.{
  Watcher, observe_cooldown, cooldown_left, handle_notify, defer_wake, is_due, Event, notified,
  cool_fires, poll_ticks, debounce_fires, subscribed, unsubscribed, received, step, Tick, run,
}
use zpinit.Resources.Watcher.Cooldown.{
  IsTimed, IsServed, deferred_due, observe_now-times, handle_debounce-times, notify_closed,
  notify_open, notify-IsServed, cool_fires_early, cool_fires_due, step_times, Ordered,
}

deferred_in_time :
    (now : ℕ) (last : Option ℕ) (o : Option ℤ) (c : ℤ)
    → ((x : ℕ) → last ≡ some x → x ≤ now)
    → ((b : ℤ) → o ≡ some b → b ≤ℤ pos (now + observe_cooldown))
    → defer_wake now (cooldown_left now last) o ≡ some c
    → c ≤ℤ pos (now + observe_cooldown)
deferred_in_time now last none c seen k e = ground (arith, deferred_due now last seen)
deferred_in_time now last (some b) c seen k e = ground (arith, k b refl)

cool_in_time :
    (now : ℕ) (detected : Snapshot) (e : Event) (w : Watcher)
    → IsTimed now w
    → (c : ℤ) → (step now detected e w).cool ≡ some c
    → c ≤ℤ pos (now + observe_cooldown)
unfolding step
cool_in_time now detected notified w t c e =
    elim (Bool-cases (ltb_ℤ (pos 0) (cooldown_left now w.last_observe))) [
      | inl h ↦
          deferred_in_time now w.last_observe w.cool c t.seen t.owed
            (rw (notify_closed now detected w h) at e)
      | inr h ↦
          t.owed c
            (sym (observe_now-times now detected w).1 ∙ rw (notify_open now detected w h) at e)
    ]
cool_in_time now detected cool_fires w t c e = elim (Bool-cases (is_due now w.cool)) [
  | inl h ↦ absurd (cc ((cool_fires_due now detected w h).1, e))
  | inr h ↦ t.owed c (rw (cool_fires_early now detected w h) at e)
]
cool_in_time now detected poll_ticks w t c e =
    t.owed c (sym (observe_now-times now detected w).1 ∙ e)
cool_in_time now detected debounce_fires w t c e =
    t.owed c (sym (handle_debounce-times now detected w).1 ∙ e)
cool_in_time now detected subscribed w t c e = t.owed c e
cool_in_time now detected (unsubscribed i) w t c e = t.owed c e
cool_in_time now detected (received i) w t c e = t.owed c e

later-IsTimed : (t now : ℕ) (w : Watcher) → t ≤ now → IsTimed t w → IsTimed now w
later-IsTimed t now w le h = record {
  seen = λ x e. ground (arith, h.seen x e);
  owed = λ c e. ground (arith, h.owed c e);
}

-- Time that does not go back keeps a watcher timed.
step-IsTimed :
    (now : ℕ) (detected : Snapshot) (e : Event) (w : Watcher)
    → IsTimed now w
    → IsTimed now (step now detected e w)
step-IsTimed now detected e w t = record {
  seen = λ x h. elim (step_times now detected e w) [
    | inl s ↦ ground (arith, s, h)
    | inr (same, kept) ↦ t.seen x (sym same ∙ h)
  ];
  owed = cool_in_time now detected e w t;
}

-- the ticks come from `t` on, and not after `now`
abbrev pub Within : ℕ → ℕ → List Tick → Type 0
Within t now [] = t ≤ now
Within t now (k ∷ rest) = (t ≤ k.now) × Within k.now now rest

run-IsTimed :
    (t now : ℕ) (ticks : List Tick) (w : Watcher)
    → Within t now ticks
    → IsTimed t w
    → IsTimed now (run ticks w)
unfolding run
run-IsTimed t now [] w h k = later-IsTimed t now w h k
run-IsTimed t now (a ∷ ticks) w h k =
    run-IsTimed a.now now ticks (step a.now a.detected a.event w) h.1
      (step-IsTimed a.now a.detected a.event w (later-IsTimed t a.now w h.0 k))

step-IsServed :
    (since now : ℕ) (detected : Snapshot) (e : Event) (w : Watcher)
    → since ≤ now
    → IsServed since w
    → IsServed since (step now detected e w)
step-IsServed since now detected e w le s = elim (step_times now detected e w) [
  | inl h ↦ inl (now, h, le)
  | inr (same, kept) ↦ elim s [
    | inl (x, h, k) ↦ inl (x, same ∙ h, k)
    | inr (c, h, k) ↦ inr (c, kept c h, k)
  ]
]

run-IsServed :
    (since t : ℕ) (ticks : List Tick) (w : Watcher)
    → since ≤ t
    → Ordered t ticks
    → IsServed since w
    → IsServed since (run ticks w)
unfolding run
run-IsServed since t [] w le o s = s
run-IsServed since t (k ∷ ticks) w le o s =
    run-IsServed since k.now ticks (step k.now k.detected k.event w) (omega (arith, le, o.0)) o.1
      (step-IsServed since k.now k.detected k.event w (omega (arith, le, o.0)) s)

due_by :
    (wake later : ℕ) (c : ℤ) (o : Option ℤ)
    → wake + observe_cooldown ≤ later
    → o ≡ some c
    → c ≤ℤ pos (wake + observe_cooldown)
    → is_due later o ≡ true
unfolding is_due
due_by wake later c o le h k = rw h (ground arith)

-- No wake is dropped: from a start, after a wake and any events, once the cooldown timer had its chance
-- to fire a cooldown later, the last observation is not older than the wake.
pub wake_is_served :
    (wake later : ℕ) (detected detected' : Snapshot) (before ticks : List Tick) (w : Watcher)
    → w.last_observe ≡ none
    → w.cool ≡ none
    → Within 0 wake before
    → Ordered wake ticks
    → wake + observe_cooldown ≤ later
    → let woken = run ticks (step wake detected notified (run before w)) in
      (x : ℕ) × ((step later detected' cool_fires woken).last_observe ≡ some x) × (wake ≤ x)
unfolding step
wake_is_served wake later detected detected' before ticks w seen idle early o le =
    let fresh : IsTimed 0 w = record {
      seen = λ x e. absurd (cc (seen, e));
      owed = λ c e. absurd (cc (idle, e));
    } in
    let timed = run-IsTimed 0 wake before w early fresh in
    let woken = run ticks (handle_notify wake detected (run before w)) in
    elim (run-IsServed wake wake ticks (handle_notify wake detected (run before w)) (omega arith) o
      (notify-IsServed wake detected (run before w) timed)) [
        | inl (x, h, k) ↦ elim (step_times later detected' cool_fires woken) [
          | inl e ↦ (later, e, omega arith)
          | inr (same, kept) ↦ (x, same ∙ h, k)
        ]
        | inr (c, h, k) ↦ (
          later,
          (cool_fires_due later detected' woken (due_by wake later c _ le h k)).0,
          omega arith,
        )
      ]
