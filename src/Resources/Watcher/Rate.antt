-- ===== src/Resources/Watcher/Rate.antt =====
-- internal/resources/watcher.go: how close together observations for inotify wakes can come.
use zpinit.Base.{
  ℕ, ◌+◌, ◌≤◌, ◌≡◌, ◌∙◌, inl, inr, Bool, true, false, not, some, List, [], ◌∷◌, arith,
  if◌then◌else◌, Bool-cases,
}
use zpinit.Base.Int.{pos, ◌-ℤ◌, ltb_ℤ}
use zpinit.Resources.Snapshot.{Snapshot}
use zpinit.Resources.Watcher.{
  Watcher, observe_cooldown, cooldown_left, is_due, Event, notified, cool_fires, poll_ticks,
  debounce_fires, subscribed, unsubscribed, received, step, Tick,
}
use zpinit.Resources.Watcher.Cooldown.{observe_now-times, step_times, notify_open, Ordered}

-- a wake that is observed at once
abbrev pub is_direct : ℕ → Event → Watcher → Bool
is_direct now notified w = not (ltb_ℤ (pos 0) (cooldown_left now w.last_observe))
is_direct now _ w = false

-- the timer of a deferred wake runs out
abbrev pub is_deferred : ℕ → Event → Watcher → Bool
is_deferred now cool_fires w = is_due now w.cool
is_deferred now _ w = false

-- the times of a run at which a test holds
unfoldable pub times_of : (ℕ → Event → Watcher → Bool) → List Tick → Watcher → List ℕ
times_of f [] w = []
times_of f (t ∷ rest) w =
    let later = times_of f rest (step t.now t.detected t.event w) in
    if f t.now t.event w then t.now ∷ later else later

-- each time is at least a cooldown after the one before it
abbrev pub Spaced : ℕ → List ℕ → Type 0
Spaced l [] = Unit
Spaced l (t ∷ rest) = (l + observe_cooldown ≤ t) × Spaced t rest

abbrev pub IsSpaced : List ℕ → Type 0
IsSpaced [] = Unit
IsSpaced (t ∷ rest) = Spaced t rest

abbrev pub HasSeen : ℕ → Watcher → Type 0
HasSeen l w = (x : ℕ) × (w.last_observe ≡ some x) × (l ≤ x)

pub step-HasSeen :
    (l now : ℕ) (detected : Snapshot) (e : Event) (w : Watcher)
    → l ≤ now
    → HasSeen l w
    → HasSeen l (step now detected e w)
step-HasSeen l now detected e w le (x, h, k) = elim (step_times now detected e w) [
  | inl s ↦ (now, s, le)
  | inr (same, kept) ↦ (x, same ∙ h, k)
]

first_direct :
    (now : ℕ) (detected : Snapshot) (e : Event) (w : Watcher)
    → is_direct now e w ≡ true
    → (step now detected e w).last_observe ≡ some now
unfolding step
first_direct now detected notified w d =
    rw (notify_open now detected w (ground arith)) (observe_now-times now detected w).0
first_direct now detected cool_fires w d = cc
first_direct now detected poll_ticks w d = cc
first_direct now detected debounce_fires w d = cc
first_direct now detected subscribed w d = cc
first_direct now detected (unsubscribed i) w d = cc
first_direct now detected (received i) w d = cc

direct_gap :
    (l now : ℕ) (detected : Snapshot) (e : Event) (w : Watcher)
    → HasSeen l w
    → is_direct now e w ≡ true
    → l + observe_cooldown ≤ now
unfolding cooldown_left ◌-ℤ◌
direct_gap l now detected notified w (x, h, k) d = ground (arith, h)
direct_gap l now detected cool_fires w s d = cc
direct_gap l now detected poll_ticks w s d = cc
direct_gap l now detected debounce_fires w s d = cc
direct_gap l now detected subscribed w s d = cc
direct_gap l now detected (unsubscribed i) w s d = cc
direct_gap l now detected (received i) w s d = cc

Spaced-direct :
    (l t : ℕ) (ticks : List Tick) (w : Watcher)
    → l ≤ t
    → Ordered t ticks
    → HasSeen l w
    → Spaced l (times_of is_direct ticks w)
unfolding times_of
Spaced-direct l t [] w le o s = tt
Spaced-direct l t (k ∷ ticks) w le o s =
    let w' = step k.now k.detected k.event w in
    elim (Bool-cases (is_direct k.now k.event w)) [
      | inr f ↦ rw f (
          Spaced-direct l k.now ticks w' (omega (arith, o.0)) o.1
            (step-HasSeen l k.now k.detected k.event w (omega (arith, o.0)) s))
      | inl d ↦ rw d (
        direct_gap l k.now k.detected k.event w s d,
        Spaced-direct k.now k.now ticks w' (omega arith) o.1
            (k.now, first_direct k.now k.detected k.event w d, omega arith),
      )
    ]

pub times_of_direct-IsSpaced :
    (t : ℕ) (ticks : List Tick) (w : Watcher)
    → Ordered t ticks
    → IsSpaced (times_of is_direct ticks w)
unfolding times_of
times_of_direct-IsSpaced t [] w o = tt
times_of_direct-IsSpaced t (k ∷ ticks) w o =
    let w' = step k.now k.detected k.event w in
    elim (Bool-cases (is_direct k.now k.event w)) [
      | inr f ↦ rw f (times_of_direct-IsSpaced k.now ticks w' o.1)
      | inl d ↦ rw d (
          Spaced-direct k.now k.now ticks w' (omega arith) o.1
            (k.now, first_direct k.now k.detected k.event w d, omega arith))
    ]
