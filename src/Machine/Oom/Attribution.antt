-- ===== src/Machine/Oom/Attribution.antt =====
-- internal/machine/oom.go: a child was killed for memory exactly when a record of the log says so.
use zpinit.Base.{
  ℕ, ◌≡◌, refl, ap, ◌∙◌, Bool, true, false, ◌&&◌, ◌||◌, Option, none, some, List, [], ◌∷◌, arith,
  ◌==◌, Bool-cases, inl, inr,
}
use zpinit.Base.Int.{ℤ, pos, negsuc, leb_ℤ, ◌+ℤ◌}
use zpinit.Supervisor.Runner.Handlers.{wrap64}
use zpinit.Machine.Oom.{
  Victims, victim_time, or_zero, keep_latest, kill_of, note_kill, index_from, oom_victims,
  OomCandidate, late_enough, attribute_kills,
}

-- A time that is not negative and leaves room for the slack before int64 ends.
abbrev pub is_timely : ℤ → Bool
is_timely ts = leb_ℤ (pos 0) ts && leb_ℤ ts (pos 9000000000000000000)

abbrev timely_option : Option ℤ → Bool
timely_option none = true
timely_option (some ts) = is_timely ts

abbrev timely_kill : Option (ℕ × ℤ) → Bool
timely_kill none = true
timely_kill (some (pid, ts)) = is_timely ts

abbrev pub are_timely : List (List ℕ) → Bool
are_timely [] = true
are_timely (rec ∷ rest) = timely_kill (kill_of rec) && are_timely rest

-- the kill is one of the PID, not before the time less the slack
abbrev hits : ℕ → ℤ → Option (ℕ × ℤ) → Bool
hits pid since none = false
hits pid since (some (p, ts)) = p == pid && late_enough since (some ts)

-- some record tells of such a kill
abbrev pub any_kill : ℕ → ℤ → List (List ℕ) → Bool
any_kill pid since [] = false
any_kill pid since (rec ∷ rest) = hits pid since (kill_of rec) || any_kill pid since rest

late_enough_mono :
    (since a b : ℤ)
    → is_timely a ≡ true
    → is_timely b ≡ true
    → leb_ℤ a b ≡ true
    → late_enough since (some a) ≡ true
    → late_enough since (some b) ≡ true
unfolding wrap64 ◌+ℤ◌
late_enough_mono since (pos a) (pos b) ha hb h l = ground arith
late_enough_mono since (negsuc a) b ha hb h l = ground arith
late_enough_mono since (pos a) (negsuc b) ha hb h l = ground arith

note_kill-timely :
    (kill : Option (ℕ × ℤ)) (out : Victims)
    → timely_kill kill ≡ true
    → ((pid : ℕ) → timely_option (victim_time pid out) ≡ true)
    → (pid : ℕ) → timely_option (victim_time pid (note_kill kill out)) ≡ true
unfolding victim_time
note_kill-timely none out t h pid = h pid
note_kill-timely (some (p, ts)) out t h pid = ground (arith, t, h pid)

late_enough-kept :
    (since ts : ℤ) (old : Option ℤ)
    → is_timely ts ≡ true
    → timely_option old ≡ true
    → (leb_ℤ (or_zero old) ts ≡ true
        → (late_enough since (some ts) ≡ (late_enough since old || late_enough since (some ts))))
      × (leb_ℤ (or_zero old) ts ≡ false
          → (late_enough since old ≡ (late_enough since old || late_enough since (some ts))))
late_enough-kept since ts none t o = (λ l. refl, λ l. absurd (ground arith))
late_enough-kept since ts (some x) t o = (
  λ l. ground (arith, late_enough_mono since x ts o t l),
  λ l. ground (arith, late_enough_mono since ts x t o (ground arith)),
)

late_enough-note_kill :
    (pid : ℕ) (since : ℤ) (kill : Option (ℕ × ℤ)) (out : Victims)
    → timely_kill kill ≡ true
    → timely_option (victim_time pid out) ≡ true
    → late_enough since (victim_time pid (note_kill kill out))
      ≡ (late_enough since (victim_time pid out) || hits pid since kill)
unfolding victim_time
late_enough-note_kill pid since none out t h = ground arith
late_enough-note_kill pid since (some (p, ts)) out t h = elim (Bool-cases (p == pid)) [
  | inl e ↦ at_pid (ground arith)
  | inr d ↦ elsewhere d
]
  where
    same :
        (old : Option ℤ)
        → timely_option old ≡ true
        → victim_time pid out ≡ old
        → late_enough since (victim_time pid (keep_latest pid ts out))
          ≡ (late_enough since old || late_enough since (some ts))
    same old o e =
        let (kept, lost) = late_enough-kept since ts old t o in ground (arith, e, kept, lost)

    at_pid :
        p ≡ pid
        → late_enough since (victim_time pid (keep_latest p ts out))
          ≡ (late_enough since (victim_time pid out) || hits pid since (some (p, ts)))
    at_pid e = ground (arith, e, same (victim_time pid out) h refl)

    elsewhere :
        (p == pid) ≡ false
        → late_enough since (victim_time pid (keep_latest p ts out))
          ≡ (late_enough since (victim_time pid out) || hits pid since (some (p, ts)))
    elsewhere d = ground (arith, d)

late_enough-index_from :
    (pid : ℕ) (since : ℤ) (records : List (List ℕ)) (out : Victims)
    → are_timely records ≡ true
    → ((q : ℕ) → timely_option (victim_time q out) ≡ true)
    → late_enough since (victim_time pid (index_from out records))
      ≡ (late_enough since (victim_time pid out) || any_kill pid since records)
unfolding index_from
late_enough-index_from pid since [] out t h = ground arith
late_enough-index_from pid since (rec ∷ rest) out t h =
    let (now, later) = both t in
    let step = late_enough-note_kill pid since (kill_of rec) out now (h pid) in
    let ih =
      late_enough-index_from pid since rest (note_kill (kill_of rec) out) later
        (note_kill-timely (kill_of rec) out now h) in
    ih
    ∙ ap (λ b. b || any_kill pid since rest) step
    ∙ assoc (late_enough since (victim_time pid out)) (hits pid since (kill_of rec))
        (any_kill pid since rest)
  where
    assoc : (a b c : Bool) → ((a || b) || c) ≡ (a || (b || c))
    assoc a b c = ground arith

    both :
        are_timely (rec ∷ rest) ≡ true
        → (timely_kill (kill_of rec) ≡ true) × (are_timely rest ≡ true)
    both t = (ground (arith, t), ground (arith, t))

late_enough-oom_victims :
    (pid : ℕ) (since : ℤ) (records : List (List ℕ))
    → are_timely records ≡ true
    → late_enough since (victim_time pid (oom_victims records)) ≡ any_kill pid since records
unfolding oom_victims victim_time
late_enough-oom_victims pid since records t =
    late_enough-index_from pid since records [] t (λ q. refl)

-- the marks that the records themselves give
abbrev pub marks_of : List (List ℕ) → List OomCandidate → List Bool → List Bool
marks_of records (c ∷ cands) (m ∷ out) =
    (m || any_kill c.pid c.since records) ∷ marks_of records cands out
marks_of records cands out = out

abbrev pub all_marked : List OomCandidate → List Bool → Bool
all_marked (c ∷ cands) (m ∷ out) = m && all_marked cands out
all_marked cands out = true

-- Take records whose kills have times that, as int64 nanoseconds, are not negative and leave room for
-- the slack of two seconds. The index of the latest kill of each PID loses no attribution: a candidate
-- that was not marked before is marked exactly when some record tells of a kill of its PID whose time,
-- with the slack, is not before the candidate's, in whatever order the records stand. A mark stays, and
-- the answer is whether every candidate is marked then.
pub attribute_kills-marks :
    (records : List (List ℕ)) (cands : List OomCandidate) (out : List Bool)
    → are_timely records ≡ true
    → attribute_kills (oom_victims records) cands out
      ≡ (marks_of records cands out, all_marked cands (marks_of records cands out))
unfolding attribute_kills
attribute_kills-marks records [] out t = refl
attribute_kills-marks records (c ∷ cands) [] t = refl
attribute_kills-marks records (c ∷ cands) (m ∷ out) t =
    ground (arith, attribute_kills-marks records cands out t, late c.pid c.since)
  where
    late :
        (pid : ℕ) (since : ℤ)
        → late_enough since (victim_time pid (oom_victims records)) ≡ any_kill pid since records
    late pid since = late_enough-oom_victims pid since records t
