-- ===== src/Supervisor/Readiness.antt =====
-- internal/supervisor/probe.go and orchestrator.go: the loop over a readiness probe, and what its end
-- makes of the service. Time is a number of nanoseconds; how long an attempt takes and whether it
-- passes is the environment's answer.
use zpinit.Base.{
  ℕ, zero, suc, ◌+◌, ◌*◌, ◌≤◌, ◌<◌, ◌≡◌, ◌≢◌, Bool, true, false, not, ◌&&◌, Option, none, some,
  arith, Bool-cases, inl, inr, ◌∙◌, ltb, ◌==◌, if◌then◌else◌,
}
use zpinit.Base.Texts.{str_eq}
use zpinit.Config.Types.{Ready, ready_continue}

-- An attempt: how long it takes, whether it passes, and whether select takes the interval timer if the
-- context ends at the same time.
pub record Attempt : Type 0 where
  pub took : ℕ
  pub passes : Bool
  pub timer_first : Bool

pub data ReadyResult : Type 0 where
  is_ready timed_out canceled : ReadyResult

-- The context of the probes: its own deadline, the time at which the caller's context ends, if it does,
-- and whether that is by a deadline, not by a cancellation.
pub record Limits : Type 0 where
  pub interval : ℕ
  pub deadline : ℕ
  pub ends_at : Option ℕ
  pub by_deadline : Bool

abbrev pub end_of : Limits → ℕ
end_of l = elim l.ends_at [
  | none ↦ l.deadline
  | some c ↦ if ltb c l.deadline then c else l.deadline
]

abbrev pub gave_up : Limits → ReadyResult
gave_up l = elim l.ends_at [
  | none ↦ timed_out
  | some c ↦ if ltb c l.deadline && not l.by_deadline then canceled else timed_out
]

abbrev pub later_of : ℕ → ℕ → ℕ
later_of a b = if ltb a b then b else a

-- waitReady from the attempt n at the time `now`; `none` means that the fuel ran out
unfoldable pub wait_ready : ℕ → Limits → (ℕ → Attempt) → ℕ → ℕ → Option ReadyResult
wait_ready zero l attempts n now = none
wait_ready (suc fuel) l attempts n now =
    let a = attempts n in
    let failed_at = now + a.took in
    let fires_at = failed_at + l.interval in
    let done_at = later_of failed_at (end_of l) in
    let again = wait_ready fuel l attempts (suc n) fires_at in
    if a.passes
    then some is_ready
    else if ltb fires_at done_at
    then again
    else if fires_at == done_at
    then (if a.timer_first then again else some (gave_up l))
    else some (gave_up l)

rounds : (fuel i : ℕ) → suc fuel * i ≡ fuel * i + i
rounds fuel i = grind arith

-- the round in front of the rest of the loop: it ends, or goes on before the end of the context
data Round (l : Limits) (a : Attempt) (now : ℕ) (r rest : Option ReadyResult) : Type 0 where
  passed : a.passes ≡ true → r ≡ some is_ready → Round l a now r rest
  ended : r ≡ some (gave_up l) → Round l a now r rest
  repeated : now + a.took + l.interval ≤ end_of l → r ≡ rest → Round l a now r rest

one_round :
    (fuel : ℕ) (l : Limits) (attempts : ℕ → Attempt) (n now : ℕ)
    → 1 ≤ l.interval
    → Round l
        (attempts n)
        now
        (wait_ready (suc fuel) l attempts n now)
        (wait_ready fuel l attempts (suc n) (now + (attempts n).took + l.interval))
unfolding wait_ready
one_round fuel l attempts n now long =
    let a = attempts n in
    let failed_at = now + a.took in
    let fires_at = failed_at + l.interval in
    let done_at = later_of failed_at (end_of l) in
    elim (Bool-cases a.passes) [
      | inl p ↦ passed p (rw p)
      | inr p ↦ elim (Bool-cases (ltb fires_at done_at)) [
        | inl b ↦ repeated (before l failed_at long b) (rw (p, b))
        | inr b ↦ elim (Bool-cases (fires_at == done_at)) [
          | inl e ↦ elim (Bool-cases a.timer_first) [
            | inl t ↦ repeated (at_once l failed_at long e) (rw (p, b, e, t))
            | inr t ↦ ended (rw (p, b, e, t))
          ]
          | inr e ↦ ended (rw (p, b, e))
        ]
      ]
    ]
  where
    before :
        (l : Limits) (t : ℕ)
        → 1 ≤ l.interval
        → ltb (t + l.interval) (later_of t (end_of l)) ≡ true
        → t + l.interval ≤ end_of l
    before l t h b = ground arith

    at_once :
        (l : Limits) (t : ℕ)
        → 1 ≤ l.interval
        → (t + l.interval == later_of t (end_of l)) ≡ true
        → t + l.interval ≤ end_of l
    at_once l t h b = ground arith

gave_up-ne-is_ready : (l : Limits) → gave_up l ≢ is_ready
gave_up-ne-is_ready l e = ground arith

-- The loop ends: with an interval of at least one nanosecond, as many rounds as intervals fit between
-- now and the end of the context, and one more, are enough, however long the attempts take. It reports
-- readiness only if an attempt of those rounds passed.
pub wait_ready_ends :
    (fuel : ℕ) (l : Limits) (attempts : ℕ → Attempt) (n now : ℕ)
    → 1 ≤ l.interval
    → end_of l < now + fuel * l.interval
    → (result : ReadyResult) × (wait_ready (suc fuel) l attempts n now ≡ some result)
      × (result ≡ is_ready → (m : ℕ) × (n ≤ m) × (m ≤ n + fuel) × ((attempts m).passes ≡ true))
wait_ready_ends zero l attempts n now long room = elim (one_round zero l attempts n now long) [
  | passed p e ↦ (is_ready, e, λ q. (n, omega arith, omega arith, p))
  | ended e ↦ (gave_up l, e, λ q. absurd (gave_up-ne-is_ready l q))
  | repeated b e ↦ absurd (omega arith)
]
wait_ready_ends (suc fuel) l attempts n now long room =
    let now' = now + (attempts n).took + l.interval in
    let room' : end_of l < now' + fuel * l.interval = omega (arith, rounds fuel l.interval) in
    let (result, e', why) = wait_ready_ends fuel l attempts (suc n) now' long room' in
    elim (one_round (suc fuel) l attempts n now long) [
      | passed p e ↦ (is_ready, e, λ q. (n, omega arith, omega arith, p))
      | ended e ↦ (gave_up l, e, λ q. absurd (gave_up-ne-is_ready l q))
      | repeated b e ↦
          (result, e ∙ e', λ q. let (m, low, high, p) = why q in (m, omega arith, omega arith, p))
    ]

-- finishReadiness: whether the runner is marked ready, and the error
unfoldable pub finish_readiness : Option Ready → ReadyResult → Bool × Option ReadyResult
finish_readiness none result = (true, none)
finish_readiness (some ready) is_ready = (true, none)
finish_readiness (some ready) result =
    if str_eq ready.on_timeout ready_continue then (true, none) else (false, some result)
