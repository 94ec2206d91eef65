-- ===== src/Machine/Oom/Records.antt =====
-- internal/machine/oom.go: how the record of a kill is read.
use zpinit.Base.{
  ℕ, suc, ◌+◌, ◌*◌, ◌^◌, ◌<◌, ◌≡◌, refl, ap, ◌∙◌, true, some, List, [], ◌∷◌, ◌++◌, arith,
}
use zpinit.Base.Int.{ℤ, pos}
use zpinit.Base.Texts.{codes}
use zpinit.Base.Decimal.{decimal}
use zpinit.Base.Number.{atoi-decimal, lacks-decimal, parse_uint, parse_uint-decimal}
use zpinit.Base.Cuts.{cut-lacks, lacks, lacks-append, cut_text-lacks, split_n}
use zpinit.Machine.Oom.{int64, parse_kmsg_record, oom_victim, kill_of}

-- what the kernel writes before the semicolon
abbrev pub header : ℕ → ℕ → ℕ → List ℕ → List ℕ
header prio seq usec flags =
    decimal prio ++ b',' ∷ (decimal seq ++ b',' ∷ (decimal usec ++ b',' ∷ flags))

-- the message of a kill
abbrev pub kill_message : List ℕ → ℕ → List ℕ → List ℕ
kill_message reason pid comm =
    reason ++ b'K' ∷ (codes "illed process " ++ (decimal pid ++ b' ' ∷ (b'(' ∷ comm)))

abbrev pub kill_record : ℕ → ℕ → ℕ → List ℕ → List ℕ → ℕ → List ℕ → List ℕ → List ℕ
kill_record prio seq usec flags reason pid comm keys =
    header prio seq usec flags ++ b';' ∷ (kill_message reason pid comm ++ 10 ∷ keys)

split_n-suc :
    (n sep : ℕ) (a b : List ℕ)
    → lacks sep a ≡ true
    → split_n (suc n) sep (a ++ sep ∷ b) ≡ a ∷ split_n n sep b
unfolding split_n
split_n-suc n sep a b h = ground (arith, cut-lacks sep a b h)

split_header :
    (prio seq usec : ℕ) (flags : List ℕ)
    → split_n 3 b',' (header prio seq usec flags)
      ≡ decimal prio ∷ decimal seq ∷ decimal usec ∷ flags ∷ []
split_header prio seq usec flags =
    split_n-suc 2 b',' (decimal prio) (decimal seq ++ b',' ∷ (decimal usec ++ b',' ∷ flags))
      (lacks-decimal b',' prio refl)
    ∙ ap (λ l. decimal prio ∷ l)
        (split_n-suc 1 b',' (decimal seq) (decimal usec ++ b',' ∷ flags)
            (lacks-decimal b',' seq refl)
          ∙ ap (λ l. decimal seq ∷ l)
              (split_n-suc 0 b',' (decimal usec) flags (lacks-decimal b',' usec refl)
                ∙ ap (λ l. decimal usec ∷ l) (unfold split_n in refl)))

lacks-header :
    (prio seq usec : ℕ) (flags : List ℕ)
    → lacks b';' flags ≡ true
    → lacks b';' (header prio seq usec flags) ≡ true
lacks-header prio seq usec flags h =
    lacks-append b';' (decimal prio) (b',' ∷ (decimal seq ++ b',' ∷ (decimal usec ++ b',' ∷ flags)))
      (lacks-decimal b';' prio refl)
      (then_comma (decimal seq ++ b',' ∷ (decimal usec ++ b',' ∷ flags)) (
        lacks-append b';' (decimal seq) (b',' ∷ (decimal usec ++ b',' ∷ flags))
          (lacks-decimal b';' seq refl)
          (then_comma (decimal usec ++ b',' ∷ flags) (
            lacks-append b';' (decimal usec) (b',' ∷ flags) (lacks-decimal b';' usec refl)
              (then_comma flags h)))))
  where
    then_comma : (l : List ℕ) → lacks b';' l ≡ true → lacks b';' (b',' ∷ l) ≡ true
    then_comma l h = unfold lacks in h

int64_small : (n : ℕ) → n < 2 ^ 63 → int64 n ≡ pos n
unfolding int64
int64_small n h = ground arith

oom_victim-kill_message :
    (reason comm : List ℕ) (pid : ℕ)
    → lacks b'K' reason ≡ true
    → pid + 1 < 2 ^ 63
    → oom_victim (kill_message reason (pid + 1) comm) ≡ some (pid + 1)
unfolding oom_victim
oom_victim-kill_message reason comm pid h lt = ground (
  arith,
  cut_text-lacks b'K' (codes "illed process ") reason (decimal (pid + 1) ++ b' ' ∷ (b'(' ∷ comm)) h,
  cut_text-lacks b' ' (b'(' ∷ []) (decimal (pid + 1)) comm (lacks-decimal b' ' (pid + 1) refl),
  atoi-decimal (pid + 1) lt,
)

lacks-kill_message :
    (reason comm : List ℕ) (pid : ℕ)
    → lacks 10 reason ≡ true
    → lacks 10 comm ≡ true
    → lacks 10 (kill_message reason pid comm) ≡ true
lacks-kill_message reason comm pid h k =
    lacks-append 10 reason
      (b'K' ∷ (codes "illed process " ++ (decimal pid ++ b' ' ∷ (b'(' ∷ comm)))) h
      (killed (decimal pid ++ b' ' ∷ (b'(' ∷ comm)) (
        lacks-append 10 (decimal pid) (b' ' ∷ (b'(' ∷ comm)) (lacks-decimal 10 pid refl) (paren k)))
  where
    killed :
        (l : List ℕ) → lacks 10 l ≡ true → lacks 10 (b'K' ∷ (codes "illed process " ++ l)) ≡ true
    killed l h = unfold lacks in h

    paren : lacks 10 comm ≡ true → lacks 10 (b' ' ∷ (b'(' ∷ comm)) ≡ true
    paren k = unfold lacks in k

parse-lines :
    (head msg keys prio seq usec flags : List ℕ) (n : ℕ)
    → lacks b';' head ≡ true
    → split_n 3 b',' head ≡ prio ∷ seq ∷ usec ∷ flags ∷ []
    → parse_uint 63 usec ≡ some n
    → lacks 10 msg ≡ true
    → parse_kmsg_record (head ++ b';' ∷ (msg ++ 10 ∷ keys)) ≡ some (int64 (n * 1000), msg)
unfolding parse_kmsg_record
parse-lines head msg keys prio seq usec flags n h s u m =
    ground (arith, cut-lacks b';' head (msg ++ 10 ∷ keys) h, s, u, cut-lacks 10 msg keys m)

kill_of-parts :
    (rec msg : List ℕ) (ts : ℤ) (pid : ℕ)
    → parse_kmsg_record rec ≡ some (ts, msg)
    → oom_victim msg ≡ some pid
    → kill_of rec ≡ some (pid, ts)
unfolding kill_of
kill_of-parts rec msg ts pid p v = ground (arith, p, v)

-- The kernel's record of a kill is read as it is meant. It stands as
-- `prio,seq,usec,flags;reason Killed process pid (comm`, a line end, and keys after it, with numbers in
-- decimal; `flags` has no semicolon, `reason` has no `K`, and neither it nor `comm` has a line end. With
-- a PID from 1 and below 2^63, and a time that fits int64 in nanoseconds, the record gives exactly that
-- PID and usec times 1000 nanoseconds.
pub kill_of-kill_record :
    (prio seq usec : ℕ) (flags reason : List ℕ) (pid : ℕ) (comm keys : List ℕ)
    → lacks b';' flags ≡ true
    → lacks b'K' reason ≡ true
    → lacks 10 reason ≡ true
    → lacks 10 comm ≡ true
    → pid + 1 < 2 ^ 63
    → usec * 1000 < 2 ^ 63
    → kill_of (kill_record prio seq usec flags reason (pid + 1) comm keys)
      ≡ some (pid + 1, pos (usec * 1000))
kill_of-kill_record prio seq usec flags reason pid comm keys f k r c lt tlt =
    let msg = kill_message reason (pid + 1) comm in
    let parsed =
      parse-lines (header prio seq usec flags) msg keys (decimal prio) (decimal seq) (decimal usec)
        flags usec (lacks-header prio seq usec flags f) (split_header prio seq usec flags)
        (parse_uint-decimal 63 usec (omega arith)) (lacks-kill_message reason comm (pid + 1) r c) in
    kill_of-parts (kill_record prio seq usec flags reason (pid + 1) comm keys) msg
      (int64 (usec * 1000)) (pid + 1) parsed (oom_victim-kill_message reason comm pid k lt)
    ∙ ap (λ t. some (pid + 1, t)) (int64_small (usec * 1000) tlt)
