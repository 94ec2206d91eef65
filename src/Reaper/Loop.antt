-- ===== src/Reaper/Loop.antt =====
-- internal/reaper/reaper.go: the table of tracked children, the reap loop and the attribution of
-- SIGKILLs to the OOM killer. A channel is the number that it was made under; a send on it, which is
-- the one that its slot has room for, is an entry of the result.
use zpinit.Base.{
  ℕ, ◌+◌, Bool, true, false, ◌&&◌, Option, none, some, List, [], ◌∷◌, ◌==◌, if◌then◌else◌,
}
use zpinit.Reaper.Exit.{ExitInfo}

-- the exit status of wait4; a status of another kind leaves the info as it is
pub data WaitStatus : Type 0 where
  exited signaled_by : ℕ → WaitStatus
  other_status : WaitStatus

-- an answer of wait4
pub data Wait : Type 0 where
  echild eintr failed nothing_left : Wait
  child : ℕ → WaitStatus → Wait

pub record Tracking : Type 0 where
  pub ch : ℕ
  pub start : ℕ

pub record Reaper : Type 0 where
  pub has_oom : Bool
  pub tracked : List (ℕ × Tracking)
  pub next_channel : ℕ

pub record Delivery : Type 0 where
  pub ch : ℕ
  pub info : ExitInfo

pub record PendingOom : Type 0 where
  pub t : Tracking
  pub info : ExitInfo

-- What one Reap did: the sends of the loop, what it left to the attribution, and the orphans that it
-- logged.
pub record Reaped : Type 0 where
  pub sent : List Delivery
  pub pending : List PendingOom
  pub orphans : List ExitInfo

unfoldable pub find_tracking : ℕ → List (ℕ × Tracking) → Option Tracking
find_tracking pid [] = none
find_tracking pid ((q, t) ∷ rest) = if q == pid then some t else find_tracking pid rest

-- delete(r.tracked, pid)
unfoldable pub delete : ℕ → List (ℕ × Tracking) → List (ℕ × Tracking)
delete pid [] = []
delete pid ((q, t) ∷ rest) = let kept = delete pid rest in if q == pid then kept else (q, t) ∷ kept

-- r.tracked[pid] = t
unfoldable pub insert : ℕ → Tracking → List (ℕ × Tracking) → List (ℕ × Tracking)
unfolding delete
insert pid t m = (pid, t) ∷ delete pid m

-- SpawnTracked under the lock: the clock of the detector is read before the spawn, whose answer is
-- the PID if it succeeded; the channel comes back with it.
unfoldable pub spawn_tracked : ℕ → Option ℕ → Reaper → Reaper × Option ℕ
unfolding insert
spawn_tracked now none r = (r, none)
spawn_tracked now (some pid) r = (
  record r {
    tracked =
        insert pid (record { ch = r.next_channel; start = if r.has_oom then now else 0 }) r.tracked;
    next_channel = r.next_channel + 1;
  },
  some r.next_channel,
)

unfoldable pub untrack : ℕ → Reaper → Reaper
unfolding delete
untrack pid r = record r { tracked = delete pid r.tracked }

abbrev pub sigkill : ℕ
sigkill = 9

unfoldable pub info_of : ℕ → WaitStatus → ExitInfo
info_of pid (exited code) = record {
  pid = pid;
  exit_code = code;
  signal = 0;
  signaled = false;
  oom_killed = false;
}
info_of pid (signaled_by sig) = record {
  pid = pid;
  exit_code = 0;
  signal = sig;
  signaled = true;
  oom_killed = false;
}
info_of pid other_status = record {
  pid = pid;
  exit_code = 0;
  signal = 0;
  signaled = false;
  oom_killed = false;
}

abbrev pub needs_oom : Reaper → ExitInfo → Bool
needs_oom r info = r.has_oom && (info.signaled && info.signal == sigkill)

-- what the loop does with one reaped child
unfoldable pub dispatch : Reaper → ExitInfo → Option Tracking → Reaped → Reaped
dispatch r info none acc = record acc { orphans = info ∷ acc.orphans }
dispatch r info (some t) acc =
    if needs_oom r info
    then record acc { pending = record { t = t; info = info } ∷ acc.pending }
    else record acc { sent = record { ch = t.ch; info = info } ∷ acc.sent }

-- The loop over the answers of wait4, up to the one that ends it. What a child adds stands in front
-- of what the later ones add.
unfoldable pub reap : List Wait → Reaper → Reaper × Reaped
unfolding info_of find_tracking delete dispatch
reap [] r = (r, record { sent = []; pending = []; orphans = [] })
reap (echild ∷ rest) r = (r, record { sent = []; pending = []; orphans = [] })
reap (eintr ∷ rest) r = reap rest r
reap (failed ∷ rest) r = (r, record { sent = []; pending = []; orphans = [] })
reap (nothing_left ∷ rest) r = (r, record { sent = []; pending = []; orphans = [] })
reap (child pid status ∷ rest) r =
    let (r', later) = reap rest (record r { tracked = delete pid r.tracked }) in
    (r', dispatch r (info_of pid status) (find_tracking pid r.tracked) later)

-- attributeOOM: the detector's answers, one for each candidate, or fewer
unfoldable pub attribute_oom : List PendingOom → List Bool → List Delivery
attribute_oom [] killed = []
attribute_oom (p ∷ rest) [] =
    record { ch = p.t.ch; info = record p.info { oom_killed = false } } ∷ attribute_oom rest []
attribute_oom (p ∷ rest) (k ∷ killed) =
    record { ch = p.t.ch; info = record p.info { oom_killed = k } } ∷ attribute_oom rest killed
