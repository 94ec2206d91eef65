-- ===== src/Machine/Oom.antt =====
-- internal/machine/oom.go: the kills that the kernel log tells of, and their attribution to children.
-- Records are lists of bytes; a Duration is an int64 of nanoseconds, whose wrap-around is written out.
pub mod Attribution
pub mod Records
use zpinit.Base.{
  ℕ, zero, suc, ◌*◌, ◌%◌, ◌^◌, ltb, Bool, true, false, not, ◌&&◌, Option, none, some, List, [], ◌∷◌,
  ◌==◌, if◌then◌else◌,
}
use zpinit.Base.Int.{ℤ, pos, negsuc, sub_ℕ, leb_ℤ, ◌+ℤ◌}
use zpinit.Base.Texts.{codes}
use zpinit.Base.Number.{atoi, parse_uint}
use zpinit.Base.Cuts.{cut, cut_text, split_n}
use zpinit.Supervisor.Runner.Handlers.{wrap64}

abbrev pub oom_slack : ℤ
oom_slack = pos 2000000000

-- a time since boot and a message
abbrev pub KmsgRecord : Type 0
KmsgRecord = ℤ × List ℕ

-- the text up to the first end of a line
abbrev first_line : List ℕ → Option (List ℕ × List ℕ) → List ℕ
first_line rest none = rest
first_line rest (some (line, more)) = line

-- an int64 product of two numbers that are not negative
unfoldable pub int64 : ℕ → ℤ
int64 n = let m = n % 2 ^ 64 in if ltb m (2 ^ 63) then pos m else sub_ℕ m (2 ^ 64)

abbrev timed : List ℕ → Option ℕ → Option KmsgRecord
timed rest none = none
timed rest (some usec) = some (int64 (usec * 1000), first_line rest (cut 10 rest))

-- the third field is the time
abbrev with_fields : List ℕ → List (List ℕ) → Option KmsgRecord
with_fields rest (prio ∷ seq ∷ usec ∷ more) = timed rest (parse_uint 63 usec)
with_fields rest few = none

unfoldable pub parse_kmsg_record : List ℕ → Option KmsgRecord
parse_kmsg_record rec = elim (cut b';' rec) [
  | none ↦ none
  | some (head, rest) ↦ with_fields rest (split_n 3 b',' head)
]

abbrev positive_pid : Option ℤ → Option ℕ
positive_pid (some (pos (suc n))) = some (suc n)
positive_pid other = none

abbrev victim_of : List ℕ → Option ℕ
victim_of rest = elim (cut_text (codes " (") rest) [
  | none ↦ none
  | some (digits, more) ↦ positive_pid (atoi digits)
]

-- a PID is not 0, and not negative
unfoldable pub oom_victim : List ℕ → Option ℕ
oom_victim msg = elim (cut_text (codes "Killed process ") msg) [
  | none ↦ none
  | some (before, rest) ↦ victim_of rest
]

-- A map from PIDs to times; a missing entry reads as 0.
abbrev pub Victims : Type 0
Victims = List (ℕ × ℤ)

unfoldable pub victim_time : ℕ → Victims → Option ℤ
victim_time pid [] = none
victim_time pid ((p, ts) ∷ rest) = if p == pid then some ts else victim_time pid rest

abbrev pub or_zero : Option ℤ → ℤ
or_zero none = pos 0
or_zero (some ts) = ts

abbrev pub keep_latest : ℕ → ℤ → Victims → Victims
keep_latest pid ts out = if leb_ℤ (or_zero (victim_time pid out)) ts then (pid, ts) ∷ out else out

-- the victim of a record, with its time
unfoldable pub kill_of : List ℕ → Option (ℕ × ℤ)
kill_of rec = elim (parse_kmsg_record rec) [
  | none ↦ none
  | some (ts, msg) ↦ elim (oom_victim msg) [ none ↦ none | some pid ↦ some (pid, ts) ]
]

abbrev pub note_kill : Option (ℕ × ℤ) → Victims → Victims
note_kill none out = out
note_kill (some (pid, ts)) out = keep_latest pid ts out

-- the loop over the records, in order, with the map so far
unfoldable pub index_from : Victims → List (List ℕ) → Victims
unfolding kill_of victim_time
index_from out [] = out
index_from out (rec ∷ rest) = index_from (note_kill (kill_of rec) out) rest

unfoldable pub oom_victims : List (List ℕ) → Victims
unfolding index_from
oom_victims records = index_from [] records

pub record OomCandidate : Type 0 where
  pub pid : ℕ
  pub since : ℤ

abbrev pub late_enough : ℤ → Option ℤ → Bool
late_enough since none = false
late_enough since (some ts) = leb_ℤ since (wrap64 (ts +ℤ oom_slack))

abbrev pub mark : Victims → OomCandidate → Bool → Bool
mark victims c marked = if marked then true else late_enough c.since (victim_time c.pid victims)

-- the marks of the candidates, and whether each has one
unfoldable pub attribute_kills : Victims → List OomCandidate → List Bool → List Bool × Bool
unfolding victim_time
attribute_kills victims (c ∷ cands) (m ∷ out) =
    let m' = mark victims c m in
    let (more, all) = attribute_kills victims cands out in (m' ∷ more, m' && all)
attribute_kills victims cands out = (out, true)

abbrev first_mark : List Bool × Bool → Bool
first_mark (m ∷ out, all) = m
first_mark ([], all) = false

unfoldable pub oom_killed_in : List (List ℕ) → ℕ → ℤ → Bool
unfolding attribute_kills oom_victims
oom_killed_in records pid since =
    first_mark (
      attribute_kills (oom_victims records) (record { pid = pid; since = since } ∷ []) (false ∷ []))
