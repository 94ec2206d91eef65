-- ===== src/Resources/Watcher.antt =====
-- internal/resources/watcher.go: the watcher's state, and its loop as a step on events. Each event
-- comes with the time and with what Detect would answer; the inotify hook and the log are left out.
-- The variables of the loop are fields of the record. A timer is the time at which it is due, in
-- nanoseconds; the environment fires it then or later, and a timer that is not due changes nothing.
pub mod Invariant
pub mod Debounce
pub mod Settling
pub mod Cooldown
pub mod Served
pub mod Rate
pub mod Deferred
use zpinit.Base.{
  ℕ, zero, suc, ◌*◌, String, Bool, true, false, not, ◌&&◌, ◌||◌, Option, none, some, List, [], ◌∷◌,
  ◌++◌, length, ltb, ◌==◌, if◌then◌else◌,
}
use zpinit.Base.Int.{ℤ, pos, ◌+ℤ◌, ◌-ℤ◌, sub_ℕ, leb_ℤ, ltb_ℤ, eq_ℤ}
use zpinit.Config.Defaults.{second, millisecond, minute}
use zpinit.Resources.Snapshot.{Snapshot, with_reserves}

pub record Change : Type 0 where
  pub snapshot : Snapshot
  pub dimensions : List String

pub record Watcher : Type 0 where
  pub reserve_cpu : ℤ
  pub reserve_mem : ℕ
  pub up_after : ℤ
  pub down_after : ℤ
  pub poll_every : ℤ
  pub current : Snapshot
  -- what each subscriber's channel holds
  pub subs : List (List Change)
  pub started : Bool
  pub pending : Option Snapshot
  pub debounce : Option ℤ
  -- `none` is the zero Time
  pub last_observe : Option ℕ
  pub cool : Option ℤ

abbrev pub observe_cooldown : ℕ
observe_cooldown = 100 * millisecond

abbrev pub default_backstop_interval : ℕ
default_backstop_interval = 15 * minute

abbrev pub no_snapshot : Snapshot
no_snapshot = record {
  cpu_quota = pos 0;
  cpu_count = pos 0;
  memory_bytes = 0;
  cgroup_resolved = false;
}

unfoldable pub new_watcher : ℤ → ℕ → ℤ → ℤ → Watcher
new_watcher reserve_cpu reserve_mem up_after down_after = record {
  reserve_cpu = reserve_cpu;
  reserve_mem = reserve_mem;
  up_after = if leb_ℤ up_after (pos 0) then pos (5 * second) else up_after;
  down_after = if leb_ℤ down_after (pos 0) then pos (30 * second) else down_after;
  poll_every = pos default_backstop_interval;
  current = no_snapshot;
  subs = [];
  started = false;
  pending = none;
  debounce = none;
  last_observe = none;
  cool = none;
}

unfoldable pub set_poll_interval : ℤ → Watcher → Watcher
set_poll_interval d w = if leb_ℤ d (pos 0) then w else record w { poll_every = d }

-- Detect().WithReserves(…)
abbrev pub reserved : Watcher → Snapshot → Snapshot
reserved w detected = with_reserves detected w.reserve_cpu w.reserve_mem

-- Start, and whether this call started the loop
unfoldable pub start : Snapshot → Watcher → Watcher × Bool
start detected w =
    if w.started
    then (w, false)
    else (record w { current = reserved w detected; started = true }, true)

unfoldable pub exposed_equal : Snapshot → Snapshot → Bool
exposed_equal a b = eq_ℤ a.cpu_count b.cpu_count && a.memory_bytes == b.memory_bytes

unfoldable pub is_any_scale_down : Snapshot → Snapshot → Bool
is_any_scale_down next current =
    ltb_ℤ next.cpu_count current.cpu_count || ltb next.memory_bytes current.memory_bytes

unfoldable pub changed_dimensions : Snapshot → Snapshot → List String
changed_dimensions prev next =
    (if eq_ℤ prev.cpu_count next.cpu_count then [] else "cpu" ∷ [])
    ++ (if prev.memory_bytes == next.memory_bytes then [] else "memory" ∷ [])

-- a send that does not block, to a channel with one slot
unfoldable pub offer : Change → List Change → List Change
offer c [] = c ∷ []
offer c (old ∷ rest) = old ∷ rest

unfoldable pub offer_all : Change → List (List Change) → List (List Change)
unfolding offer
offer_all c [] = []
offer_all c (ch ∷ rest) = offer c ch ∷ offer_all c rest

abbrev emit : List String → Snapshot → Watcher → Watcher
emit [] snap w = w
emit (d ∷ dims) snap w = record w {
  subs = offer_all (record { snapshot = snap; dimensions = d ∷ dims }) w.subs;
}

unfoldable pub commit : Snapshot → Watcher → Watcher
unfolding offer_all
commit snap w = emit (changed_dimensions w.current snap) snap (record w { current = snap })

unfoldable pub cancel_debounce : Watcher → Watcher
cancel_debounce w = record w { pending = none; debounce = none }

abbrev awaits : Option Snapshot → Snapshot → Bool
awaits none snap = false
awaits (some p) snap = exposed_equal snap p

-- the debounce of a new target
unfoldable pub settle_after : Watcher → Snapshot → ℤ
unfolding is_any_scale_down
settle_after w snap = if is_any_scale_down snap w.current then w.down_after else w.up_after

unfoldable pub observe : ℕ → Snapshot → Watcher → Watcher
unfolding cancel_debounce
observe now detected w =
    let snap = reserved w detected in
    if exposed_equal snap w.current
    then cancel_debounce w
    else if awaits w.pending snap
    then w
    else record w { pending = some snap; debounce = some (pos now +ℤ settle_after w snap) }

unfoldable pub observe_now : ℕ → Snapshot → Watcher → Watcher
unfolding observe
observe_now now detected w = observe now detected (record w { last_observe = some now })

-- the wait that is left of the cooldown; the zero Time is long ago
unfoldable pub cooldown_left : ℕ → Option ℕ → ℤ
unfolding ◌-ℤ◌
cooldown_left now none = pos 0
cooldown_left now (some last) = pos observe_cooldown -ℤ sub_ℕ now last

abbrev pub defer_wake : ℕ → ℤ → Option ℤ → Option ℤ
defer_wake now wait none = some (pos now +ℤ wait)
defer_wake now wait (some due) = some due

unfoldable pub handle_notify : ℕ → Snapshot → Watcher → Watcher
unfolding observe_now
handle_notify now detected w =
    let wait = cooldown_left now w.last_observe in
    if ltb_ℤ (pos 0) wait
    then record w { cool = defer_wake now wait w.cool }
    else observe_now now detected w

-- a timer that is set and due
unfoldable pub is_due : ℕ → Option ℤ → Bool
is_due now none = false
is_due now (some due) = leb_ℤ due (pos now)

unfoldable pub handle_cool : ℕ → Snapshot → Watcher → Watcher
unfolding observe_now
handle_cool now detected w =
    if is_due now w.cool then observe_now now detected (record w { cool = none }) else w

abbrev settle : Option Snapshot → Snapshot → Watcher → Watcher
settle none snap w = w
settle (some p) snap w =
    if exposed_equal snap p then commit snap (cancel_debounce w) else cancel_debounce w

unfoldable pub handle_debounce : ℕ → Snapshot → Watcher → Watcher
unfolding commit cancel_debounce
handle_debounce now detected w =
    if is_due now w.debounce then settle w.pending (reserved w detected) w else w

abbrev clear_at : ℕ → List (List Change) → List (List Change)
clear_at i [] = []
clear_at zero (ch ∷ rest) = [] ∷ rest
clear_at (suc i) (ch ∷ rest) = ch ∷ clear_at i rest

abbrev remove_at : ℕ → List (List Change) → List (List Change)
remove_at i [] = []
remove_at zero (ch ∷ rest) = rest
remove_at (suc i) (ch ∷ rest) = ch ∷ remove_at i rest

pub data Event : Type 0 where
  -- the cases of the select
  notified cool_fires poll_ticks debounce_fires : Event
  -- Subscribe, its cleanup, and a receive by a subscriber
  subscribed : Event
  unsubscribed received : ℕ → Event

unfoldable pub step : ℕ → Snapshot → Event → Watcher → Watcher
unfolding handle_notify handle_cool handle_debounce
step now detected notified w = handle_notify now detected w
step now detected cool_fires w = handle_cool now detected w
step now detected poll_ticks w = observe_now now detected w
step now detected debounce_fires w = handle_debounce now detected w
step now detected subscribed w = record w { subs = w.subs ++ [] ∷ [] }
step now detected (unsubscribed i) w = record w { subs = remove_at i w.subs }
step now detected (received i) w = record w { subs = clear_at i w.subs }

-- an event, the time it comes at, and what Detect answers then
pub record Tick : Type 0 where
  pub now : ℕ
  pub detected : Snapshot
  pub event : Event

unfoldable pub run : List Tick → Watcher → Watcher
unfolding step
run [] w = w
run (t ∷ rest) w = run rest (step t.now t.detected t.event w)
