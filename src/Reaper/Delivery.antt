-- ===== src/Reaper/Delivery.antt =====
-- internal/reaper/reaper.go: every reaped child is accounted for once.
use zpinit.Base.{
  ℕ, zero, suc, ◌≡◌, ◌≢◌, refl, ap, Bool, true, false, Option, none, some, List, [], ◌∷◌, ◌++◌,
  ◌==◌, arith, length, map, get_elem?, if◌then◌else◌, Bool-cases, inl, inr,
}
use mathlib.Core.Option
use zpinit.Reaper.Exit.{ExitInfo, no_exit}
use zpinit.Reaper.Loop.{
  WaitStatus, exited, signaled_by, other_status, Wait, echild, eintr, failed, nothing_left, child,
  Tracking, Reaper, Delivery, PendingOom, Reaped, find_tracking, delete, spawn_tracked, info_of,
  needs_oom, dispatch, reap, attribute_oom,
}

-- the statuses that the answers hold for a PID, in order, before an answer that ends the loop
unfoldable pub statuses : ℕ → List Wait → List WaitStatus
statuses q [] = []
statuses q (echild ∷ rest) = []
statuses q (eintr ∷ rest) = statuses q rest
statuses q (failed ∷ rest) = []
statuses q (nothing_left ∷ rest) = []
statuses q (child pid status ∷ rest) =
    let later = statuses q rest in if pid == q then status ∷ later else later

-- what an exit of a PID with a status has to say
abbrev pub exit_of : ℕ → WaitStatus → ExitInfo
exit_of q (exited code) = record no_exit { pid = q; exit_code = code }
exit_of q (signaled_by sig) = record no_exit { pid = q; signal = sig; signaled = true }
exit_of q other_status = record no_exit { pid = q }

-- the exits of a PID with the channels that get them: at once, or from the attribution
pub sent_exits : ℕ → List Delivery → List (ℕ × ExitInfo)
sent_exits q [] = []
sent_exits q (d ∷ rest) =
    let later = sent_exits q rest in if d.info.pid == q then (d.ch, d.info) ∷ later else later

pub pending_exits : ℕ → List PendingOom → List (ℕ × ExitInfo)
pending_exits q [] = []
pending_exits q (p ∷ rest) =
    let later = pending_exits q rest in if p.info.pid == q then (p.t.ch, p.info) ∷ later else later

pub orphans_of : ℕ → List ExitInfo → List ExitInfo
orphans_of q [] = []
orphans_of q (i ∷ rest) = let later = orphans_of q rest in if i.pid == q then i ∷ later else later

abbrev pub exits : ℕ → Reaped → List (ℕ × ExitInfo)
exits q x = sent_exits q x.sent ++ pending_exits q x.pending

-- the first exit goes to the channel of its tracking
abbrev pub due : ℕ → List WaitStatus → Option Tracking → List (ℕ × ExitInfo)
due q (s ∷ rest) (some t) = (t.ch, exit_of q s) ∷ []
due q ss o = []

-- the others, or all where there is no tracking, are orphans
abbrev pub left_over : ℕ → List WaitStatus → Option Tracking → List ExitInfo
left_over q [] o = []
left_over q (s ∷ rest) none = map (exit_of q) (s ∷ rest)
left_over q (s ∷ rest) (some t) = map (exit_of q) rest

find_tracking-delete :
    (pid q : ℕ) (m : List (ℕ × Tracking))
    → find_tracking q (delete pid m) ≡ (if pid == q then none else find_tracking q m)
unfolding find_tracking delete
find_tracking-delete pid q [] = ground arith
find_tracking-delete pid q ((k, t) ∷ m) = ground (arith, find_tracking-delete pid q m)

info_of-pid : (pid : ℕ) (status : WaitStatus) → (info_of pid status).pid ≡ pid
unfolding info_of
info_of-pid pid status = ground arith

info_of-exit_of : (pid : ℕ) (status : WaitStatus) → info_of pid status ≡ exit_of pid status
unfolding info_of
info_of-exit_of pid (exited code) = refl
info_of-exit_of pid (signaled_by sig) = refl
info_of-exit_of pid other_status = refl

append_empty {ℓ} : {A : Type ℓ} (xs ys : List A) → xs ++ ys ≡ [] → (xs ≡ []) × (ys ≡ [])
append_empty [] ys h = (refl, h)
append_empty (x ∷ xs) ys h = cc

abbrev own_exit : ExitInfo → Option Tracking → List (ℕ × ExitInfo)
own_exit info none = []
own_exit info (some t) = (t.ch, info) ∷ []

abbrev own_orphan : ExitInfo → Option Tracking → List ExitInfo
own_orphan info none = info ∷ []
own_orphan info (some t) = []

module _ (q : ℕ) (r : Reaper) (info : ExitInfo) (acc : Reaped) where
  dispatch_other :
      (o : Option Tracking)
      → info.pid ≢ q
      → (exits q (dispatch r info o acc) ≡ exits q acc)
        × (orphans_of q (dispatch r info o acc).orphans ≡ orphans_of q acc.orphans)
  unfolding dispatch sent_exits pending_exits orphans_of
  dispatch_other none ne = ground arith
  dispatch_other (some t) ne = elim (Bool-cases (needs_oom r info)) [
    | inl y ↦ rw y (ground arith)
    | inr n ↦ rw n (ground arith)
  ]

  dispatch_same :
      (o : Option Tracking)
      → info.pid ≡ q
      → exits q acc ≡ []
      → (exits q (dispatch r info o acc) ≡ own_exit info o)
        × (orphans_of q (dispatch r info o acc).orphans
            ≡ own_orphan info o ++ orphans_of q acc.orphans)
  unfolding dispatch sent_exits pending_exits orphans_of
  dispatch_same none e h = ground arith
  dispatch_same (some t) e h =
      let parts = append_empty (sent_exits q acc.sent) (pending_exits q acc.pending) h in
      elim (Bool-cases (needs_oom r info)) [
        | inl y ↦ rw y (ground (arith, parts))
        | inr n ↦ rw n (ground (arith, parts))
      ]

left_over-none : (q : ℕ) (ss : List WaitStatus) → left_over q ss none ≡ map (exit_of q) ss
left_over-none q [] = refl
left_over-none q (s ∷ ss) = refl

-- For every PID, what a Reap does with the exits that wait4 reported for it, in their order. If the PID
-- was tracked, the first, with its own exit code or signal, is sent to the channel that the PID was
-- tracked with, or left to the attribution for that channel, once in all; the others are orphans, with
-- their own codes and signals. Without a tracking all are orphans. Afterwards the PID is tracked as before if it was not
-- reaped, and not at all if it was.
pub reap_accounts :
    (q : ℕ) (waits : List Wait) (r : Reaper)
    → let ss = statuses q waits in
      let (r', x) = reap waits r in
      (exits q x ≡ due q ss (find_tracking q r.tracked))
      × (orphans_of q x.orphans ≡ left_over q ss (find_tracking q r.tracked))
      × (find_tracking q r'.tracked ≡ (if length ss == 0 then find_tracking q r.tracked else none))
unfolding reap statuses
reap_accounts q [] r = unfold sent_exits pending_exits orphans_of in ground arith
reap_accounts q (echild ∷ rest) r = unfold sent_exits pending_exits orphans_of in ground arith
reap_accounts q (eintr ∷ rest) r = reap_accounts q rest r
reap_accounts q (failed ∷ rest) r = unfold sent_exits pending_exits orphans_of in ground arith
reap_accounts q (nothing_left ∷ rest) r = unfold sent_exits pending_exits orphans_of in ground arith
reap_accounts q (child pid status ∷ rest) r =
    let r₁ : Reaper = record r { tracked = delete pid r.tracked } in
    let ih = reap_accounts q rest r₁ in
    let later = (reap rest r₁).1 in
    ground (
      arith,
      ih,
      find_tracking-delete pid q r.tracked,
      info_of-pid pid status,
      info_of-exit_of pid status,
      left_over-none q (statuses q rest),
      dispatch_other q r (info_of pid status) later (find_tracking pid r.tracked),
      dispatch_same q r (info_of pid status) later (find_tracking pid r.tracked),
    )

-- A child that was spawned and is then reaped, however soon, reaches the channel that the spawn
-- returned, exactly once and with the status of its exit, also where its PID had been tracked before.
pub spawn_then_reap :
    (now pid : ℕ) (r : Reaper) (waits : List Wait) (s : WaitStatus) (rest : List WaitStatus)
    → statuses pid waits ≡ s ∷ rest
    → let (r', ch) = spawn_tracked now (some pid) r in
      (ch ≡ some r.next_channel)
      × (exits pid (reap waits r').1 ≡ (r.next_channel, exit_of pid s) ∷ [])
unfolding spawn_tracked find_tracking
spawn_then_reap now pid r waits s rest h =
    let r' = (spawn_tracked now (some pid) r).0 in
    (refl, ground (arith, h, (reap_accounts pid waits r').0))

-- Only a SIGKILL under a detector waits for the attribution.
abbrev pub AllPending : (PendingOom → Type 0) → List PendingOom → Type 0
AllPending P [] = Unit
AllPending P (p ∷ rest) = P p × AllPending P rest

dispatch-pending :
    (r : Reaper) (info : ExitInfo) (o : Option Tracking) (acc : Reaped)
    → AllPending (λ p. needs_oom r p.info ≡ true) acc.pending
    → AllPending (λ p. needs_oom r p.info ≡ true) (dispatch r info o acc).pending
unfolding dispatch
dispatch-pending r info none acc h = h
dispatch-pending r info (some t) acc h = ground arith

pub reap-pending :
    (waits : List Wait) (r : Reaper)
    → AllPending (λ p. needs_oom r p.info ≡ true) (reap waits r).1.pending
unfolding reap
reap-pending [] r = tt
reap-pending (echild ∷ rest) r = tt
reap-pending (eintr ∷ rest) r = reap-pending rest r
reap-pending (failed ∷ rest) r = tt
reap-pending (nothing_left ∷ rest) r = tt
reap-pending (child pid status ∷ rest) r =
    dispatch-pending r (info_of pid status) (find_tracking pid r.tracked) _
      (reap-pending rest (record r { tracked = delete pid r.tracked }))

-- the detector's answer for the candidate at a place, false where it gave none
abbrev pub answer : List Bool → ℕ → Bool
answer [] n = false
answer (k ∷ rest) zero = k
answer (k ∷ rest) (suc n) = answer rest n

-- The attribution sends once for each pending exit, in order and on its own channel, with all of the
-- exit but the OOM mark, which is the detector's answer, or false where the detector answered less.
pub attribute_oom_answers :
    (pending : List PendingOom) (killed : List Bool) (n : ℕ)
    → (length (attribute_oom pending killed) ≡ length pending)
      × (get_elem? (attribute_oom pending killed) n
          ≡ Option.map
              (λ (p : PendingOom). record {
                ch = p.t.ch;
                info = record p.info { oom_killed = answer killed n };
              })
              (get_elem? pending n))
unfolding attribute_oom
attribute_oom_answers [] killed n = (refl, refl)
attribute_oom_answers (p ∷ rest) [] zero = (ap suc (attribute_oom_answers rest [] zero).0, refl)
attribute_oom_answers (p ∷ rest) [] (suc n) =
    let ih = attribute_oom_answers rest [] n in (ap suc ih.0, ih.1)
attribute_oom_answers (p ∷ rest) (k ∷ killed) zero =
    (ap suc (attribute_oom_answers rest killed zero).0, refl)
attribute_oom_answers (p ∷ rest) (k ∷ killed) (suc n) =
    let ih = attribute_oom_answers rest killed n in (ap suc ih.0, ih.1)
