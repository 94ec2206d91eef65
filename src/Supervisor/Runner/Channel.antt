-- ===== src/Supervisor/Runner/Channel.antt =====
-- internal/supervisor/runner.go: what a channel of Observe holds.
use zpinit.Base.{
  ℕ, zero, suc, ◌<◌, ◌≡◌, refl, List, [], ◌∷◌, ◌++◌, arith, length, get_or, length-append,
}
use zpinit.Supervisor.Runner.State.{State, offer, broadcast, observer_capacity}

-- the last state that a waiter has seen: the one it found, or the last one it was sent
unfoldable pub last_seen : State → List State → State
last_seen now [] = now
last_seen now (s ∷ rest) = last_seen s rest

abbrev pub channel : ℕ → List (List State) → List State
channel k chs = get_or chs k []

last_seen-append : (now s : State) (l : List State) → last_seen now (l ++ s ∷ []) ≡ s
unfolding last_seen
last_seen-append now s [] = refl
last_seen-append now s (x ∷ l) = last_seen-append x s l

-- the channel k of a runner in state s holds all that its waiter has yet to see, unless it is full
pub record Follows (k : ℕ) (now s : State) (chs : List (List State)) : Type 0 where
  pub there : k < length chs
  pub latest : length (channel k chs) < observer_capacity → last_seen now (channel k chs) ≡ s

offer-last :
    (now s : State) (l : List State)
    → length (offer s l) < observer_capacity
    → last_seen now (offer s l) ≡ s
unfolding offer
offer-last now s l h = ground (arith, last_seen-append now s l)

pub length-broadcast : (s : State) (chs : List (List State)) → length (broadcast s chs) ≡ length chs
unfolding broadcast
length-broadcast s [] = refl
length-broadcast s (ch ∷ chs) = ground (arith, length-broadcast s chs)

channel-broadcast :
    (k : ℕ) (s : State) (chs : List (List State))
    → k < length chs
    → channel k (broadcast s chs) ≡ offer s (channel k chs)
unfolding broadcast
channel-broadcast k s [] h = elim h [ ]
channel-broadcast zero s (ch ∷ chs) h = refl
channel-broadcast (suc k) s (ch ∷ chs) h = channel-broadcast k s chs (omega arith)

pub broadcast-Follows :
    (k : ℕ) (now s : State) (chs : List (List State))
    → k < length chs
    → Follows k now s (broadcast s chs)
broadcast-Follows k now s chs h = record {
  there = omega (arith, length-broadcast s chs);
  latest = ground (arith, channel-broadcast k s chs, offer-last now s (channel k chs));
}

channel-append :
    (k : ℕ) (chs more : List (List State))
    → k < length chs
    → channel k (chs ++ more) ≡ channel k chs
channel-append k [] more h = elim h [ ]
channel-append zero (ch ∷ chs) more h = refl
channel-append (suc k) (ch ∷ chs) more h = channel-append k chs more (omega arith)

pub observed-Follows :
    (k : ℕ) (now s : State) (chs : List (List State))
    → Follows k now s chs
    → Follows k now s (chs ++ [] ∷ [])
observed-Follows k now s chs f = record {
  there = omega (arith, f.there, length-append chs ([] ∷ []));
  latest = ground (arith, channel-append k chs ([] ∷ []) f.there);
}

pub subscribe-Follows :
    (chs : List (List State)) (s : State) → Follows (length chs) s s (chs ++ [] ∷ [])
subscribe-Follows [] s = record { there = omega arith; latest = λ h. unfold last_seen in refl }
subscribe-Follows (ch ∷ chs) s =
    let f = subscribe-Follows chs s in record { there = omega (arith, f.there); latest = f.latest }

-- A waiter that has subscribed may look at the state at any time after.
look_again : (now s : State) (l : List State) → last_seen now l ≡ s → last_seen s l ≡ s
unfolding last_seen
look_again now s [] h = refl
look_again now s (x ∷ l) h = h

pub later-Follows :
    (k : ℕ) (now s : State) (chs : List (List State)) → Follows k now s chs → Follows k s s chs
later-Follows k now s chs f = record {
  there = f.there;
  latest = λ room. look_again now s (channel k chs) (f.latest room);
}
