-- ===== src/Resources/Watcher/Invariant.antt =====
-- internal/resources/watcher.go: what holds of the watcher between two events.
use zpinit.Base.{
  ℕ, zero, suc, ◌≤◌, ◌≡◌, Bool, true, false, Option, none, some, List, [], ◌∷◌, ◌++◌, arith, length,
}
use zpinit.Base.Int.{ℤ}
use zpinit.Resources.Snapshot.{Snapshot}
use zpinit.Resources.Watcher.{
  reserved, Change, Watcher, new_watcher, set_poll_interval, start, exposed_equal,
  changed_dimensions, offer_all, commit, cancel_debounce, observe, observe_now, handle_notify,
  handle_cool, handle_debounce, clear_at, remove_at, Event, notified, cool_fires, poll_ticks,
  debounce_fires, subscribed, unsubscribed, received, step, Tick, run,
}

abbrev pub is_some {ℓ} : {A : Type ℓ} → Option A → Bool
is_some none = false
is_some (some a) = true

-- no channel holds more than the one change that its slot has room for
abbrev pub IsSlotted : List (List Change) → Type 0
IsSlotted [] = Unit
IsSlotted (ch ∷ rest) = (length ch ≤ 1) × IsSlotted rest

pub record IsWellFormed (w : Watcher) : Type 0 where
  pub armed : is_some w.debounce ≡ is_some w.pending
  pub moved : (p : Snapshot) → w.pending ≡ some p → exposed_equal p w.current ≡ false
  pub slots : IsSlotted w.subs

offer_all-IsSlotted :
    (c : Change) (l : List (List Change)) → IsSlotted l → IsSlotted (offer_all c l)
unfolding offer_all
offer_all-IsSlotted c [] h = tt
offer_all-IsSlotted c ([] ∷ l) h = (omega arith, offer_all-IsSlotted c l h.1)
offer_all-IsSlotted c ((old ∷ ch) ∷ l) h = (h.0, offer_all-IsSlotted c l h.1)

subscribed-IsSlotted : (l : List (List Change)) → IsSlotted l → IsSlotted (l ++ [] ∷ [])
subscribed-IsSlotted [] h = (omega arith, tt)
subscribed-IsSlotted (ch ∷ l) h = (h.0, subscribed-IsSlotted l h.1)

clear_at-IsSlotted : (i : ℕ) (l : List (List Change)) → IsSlotted l → IsSlotted (clear_at i l)
clear_at-IsSlotted i [] h = tt
clear_at-IsSlotted zero (ch ∷ l) h = (omega arith, h.1)
clear_at-IsSlotted (suc i) (ch ∷ l) h = (h.0, clear_at-IsSlotted i l h.1)

remove_at-IsSlotted : (i : ℕ) (l : List (List Change)) → IsSlotted l → IsSlotted (remove_at i l)
remove_at-IsSlotted i [] h = tt
remove_at-IsSlotted zero (ch ∷ l) h = h.1
remove_at-IsSlotted (suc i) (ch ∷ l) h = (h.0, remove_at-IsSlotted i l h.1)

commit-IsWellFormed :
    (snap : Snapshot) (w : Watcher)
    → IsSlotted w.subs
    → IsWellFormed (commit snap (cancel_debounce w))
unfolding commit cancel_debounce
commit-IsWellFormed snap w h = ground (
  arith,
  offer_all-IsSlotted (record { snapshot = snap; dimensions = changed_dimensions w.current snap })
      w.subs,
)

observe-IsWellFormed :
    (now : ℕ) (detected : Snapshot) (w : Watcher)
    → IsWellFormed w
    → IsWellFormed (observe now detected w)
unfolding observe
observe-IsWellFormed now detected w ok = ground arith

observe_now-IsWellFormed :
    (now : ℕ) (detected : Snapshot) (w : Watcher)
    → IsWellFormed w
    → IsWellFormed (observe_now now detected w)
unfolding observe_now
observe_now-IsWellFormed now detected w ok =
    observe-IsWellFormed now detected (record w { last_observe = some now })
      (record { armed = ok.armed; moved = ok.moved; slots = ok.slots })

-- Every event keeps the invariant.
pub step-IsWellFormed :
    (now : ℕ) (detected : Snapshot) (e : Event) (w : Watcher)
    → IsWellFormed w
    → IsWellFormed (step now detected e w)
unfolding step handle_notify handle_cool handle_debounce
step-IsWellFormed now detected notified w ok =
    ground (arith, observe_now-IsWellFormed now detected w ok)
step-IsWellFormed now detected cool_fires w ok =
    ground (arith, observe_now-IsWellFormed now detected (record w { cool = none }))
step-IsWellFormed now detected poll_ticks w ok = observe_now-IsWellFormed now detected w ok
step-IsWellFormed now detected debounce_fires w ok =
    ground (arith, commit-IsWellFormed (reserved w detected) w ok.slots)
step-IsWellFormed now detected subscribed w ok = record {
  armed = ok.armed;
  moved = ok.moved;
  slots = subscribed-IsSlotted w.subs ok.slots;
}
step-IsWellFormed now detected (unsubscribed i) w ok = record {
  armed = ok.armed;
  moved = ok.moved;
  slots = remove_at-IsSlotted i w.subs ok.slots;
}
step-IsWellFormed now detected (received i) w ok = record {
  armed = ok.armed;
  moved = ok.moved;
  slots = clear_at-IsSlotted i w.subs ok.slots;
}

run_keeps : (ticks : List Tick) (w : Watcher) → IsWellFormed w → IsWellFormed (run ticks w)
unfolding run
run_keeps [] w ok = ok
run_keeps (t ∷ ticks) w ok =
    run_keeps ticks (step t.now t.detected t.event w)
      (step-IsWellFormed t.now t.detected t.event w ok)

-- From its start, whatever events come, the watcher's debounce timer is set exactly while a target is
-- pending, the pending target exposes other values than the committed snapshot, and no subscriber's
-- channel holds more than one change.
pub start-IsWellFormed :
    (reserve_cpu : ℤ) (reserve_mem : ℕ) (up_after down_after poll : ℤ) (detected : Snapshot)
    (ticks : List Tick)
    → IsWellFormed (
        run ticks
          (start detected
            (set_poll_interval poll (new_watcher reserve_cpu reserve_mem up_after down_after))).0)
unfolding start set_poll_interval new_watcher
start-IsWellFormed reserve_cpu reserve_mem up_after down_after poll detected ticks =
    run_keeps ticks _ (ground arith)
