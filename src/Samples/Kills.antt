-- ===== src/Samples/Kills.antt =====
-- Records of the kernel log.
use zpinit.Base.{ℕ, ◌*◌, ◌≡◌, refl, true, false, some, List, [], ◌∷◌, arith}
use zpinit.Base.Int.{pos}
use zpinit.Base.Texts.{codes}
use zpinit.Machine.Oom.{kill_of, OomCandidate, attribute_kills, oom_victims}
use zpinit.Machine.Oom.Attribution.{are_timely, marks_of, all_marked, attribute_kills-marks}
use zpinit.Machine.Oom.Records.{kill_record, kill_of-kill_record}
use zpinit.Base.Cuts.{lacks}
use zpinit.Machine.Oom.{parse_kmsg_record}
use zpinit.Base.Cuts.{cut}
use zpinit.Base.Cuts.{split_n}
use zpinit.Base.Number.{parse_uint}
use zpinit.Machine.Oom.{oom_victim}
use zpinit.Base.Cuts.{cut_text}
use zpinit.Base.Cuts.{cut_prefix}
use zpinit.Base.Decimal.{decimal}
use zpinit.Base.Number.{atoi}
use zpinit.Machine.Oom.{int64}
use zpinit.Supervisor.Runner.Handlers.{wrap64}

abbrev comm : List ℕ
comm = codes "web), total-vm:20kB"

abbrev killed : List ℕ
killed = kill_record 6 412 5000000 (codes "-") (codes "Memory cgroup out of memory: ") 100 comm []

kill_of-kill_record_example : kill_of killed ≡ some (100, pos (5000000 * 1000))
unfolding lacks
kill_of-kill_record_example =
    kill_of-kill_record 6 412 5000000 (codes "-") (codes "Memory cgroup out of memory: ") 99 comm []
      refl refl refl refl (ground arith) (ground arith)

abbrev records : List (List ℕ)
records = codes "6,411,4999;eth0: link up" ∷ killed ∷ []

-- the child that was killed, and one that began later under its number
abbrev candidates : List OomCandidate
candidates =
    record { pid = 100; since = pos 4000000000 } ∷ record { pid = 100; since = pos 9000000000 } ∷ []

records-are_timely : are_timely records ≡ true
unfolding kill_of parse_kmsg_record cut split_n parse_uint oom_victim cut_text cut_prefix decimal
    atoi int64
records-are_timely = refl

attribute_kills-marks_example :
    attribute_kills (oom_victims records) candidates (false ∷ false ∷ []) ≡ (
      marks_of records candidates (false ∷ false ∷ []),
      all_marked candidates (marks_of records candidates (false ∷ false ∷ [])),
    )
attribute_kills-marks_example =
    attribute_kills-marks records candidates (false ∷ false ∷ []) records-are_timely

marked : marks_of records candidates (false ∷ false ∷ []) ≡ true ∷ false ∷ []
unfolding kill_of parse_kmsg_record cut split_n parse_uint oom_victim cut_text cut_prefix decimal
    atoi wrap64 int64
marked = refl
