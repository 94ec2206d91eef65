-- ===== src/Supervisor/Boot/Single.antt =====
-- internal/supervisor/orchestrator.go: when a runner counts as booted, in bootOne.
use zpinit.Base.{
  ◌≡◌, ◌≢◌, refl, sym, ap, ◌∙◌, true, false, Bool, Option, none, some, arith, if◌then◌else◌, inl,
  inr, ◌⊎◌, ◌↔◌,
}
use zpinit.Base.Texts.{str_eq, str_eq-eq, str_eq_self}
use zpinit.Config.Types.{Ready, ready_continue}
use zpinit.Supervisor.Runner.State.{Runner, completed_cleanly}
use zpinit.Supervisor.Runner.Waits.{
  SendError, refused, send_result, BootResult, booted, is_fatal, was_stopped, boot_result_from,
}
use zpinit.Supervisor.Readiness.{ReadyResult, is_ready, timed_out, canceled, finish_readiness}
use zpinit.Supervisor.Runner.Handlers.{StartError}
use zpinit.Supervisor.Boot.{Answers, send_start, not_running, readiness_error, after_wait, boot_one}

-- A service without a probe is ready, and one with a probe where that passes or its on_timeout is
-- `continue`.
abbrev pub IsReady : Option Ready → ReadyResult → Type 0
IsReady none result = Unit
IsReady (some ready) result = (result ≡ is_ready) ⊎ (ready.on_timeout ≡ ready_continue)

-- The start is accepted. Then the runner is seen running and becomes ready, or it is not and has
-- completed cleanly.
abbrev pub Boots : Answers → Runner → Type 0
Boots a r =
    (a.start ≡ some none)
    × ((boot_result_from a.found a.sent ≡ booted) × IsReady r.cfg.ready a.probe
        ⊎ (boot_result_from a.found a.sent ≢ booted) × (completed_cleanly a.later ≡ true))

abbrev settled : {E : Type 0} → Bool → E → Bool × Option E
settled b e = if b then (true, none) else (false, some e)

settled_lem : {E : Type 0} (b : Bool) (e : E) → ((settled b e).1 ≡ none) ↔ (b ≡ true)
settled_lem true e = (λ h. refl, λ h. refl)
settled_lem false e = (λ h. absurd (cc h), λ h. absurd (cc h))

gave_up_lem :
    (ready : Ready) (r : ReadyResult)
    → r ≢ is_ready
    → ((settled (str_eq ready.on_timeout ready_continue) r).1 ≡ none) ↔ IsReady (some ready) r
gave_up_lem ready r ne = (
  λ h. inr (
      str_eq-eq ready.on_timeout ready_continue
        ((settled_lem (str_eq ready.on_timeout ready_continue) r).0 h)),
  λ h. elim h [
    | inl e ↦ absurd (ne e)
    | inr e ↦
        (settled_lem (str_eq ready.on_timeout ready_continue) r).1
          (ap (λ t. str_eq t ready_continue) e ∙ str_eq_self ready_continue)
  ],
)

readiness_lem :
    (ready : Option Ready) (result : ReadyResult)
    → ((finish_readiness ready result).1 ≡ none) ↔ IsReady ready result
unfolding finish_readiness
readiness_lem none result = (λ h. tt, λ h. refl)
readiness_lem (some ready) is_ready = (λ h. inl refl, λ h. refl)
readiness_lem (some ready) timed_out = gave_up_lem ready timed_out (λ e. cc e)
readiness_lem (some ready) canceled = gave_up_lem ready canceled (λ e. cc e)

-- what follows the wait counts as booted
abbrev Goes : Answers → Runner → BootResult → Type 0
Goes a r b =
    (b ≡ booted) × IsReady r.cfg.ready a.probe ⊎ (b ≢ booted) × (completed_cleanly a.later ≡ true)

not_booted :
    (a : Answers) (r : Runner) (b : BootResult)
    → b ≢ booted
    → (after_wait a r b).1 ≡ (settled (completed_cleanly a.later) (not_running b)).1
    → ((after_wait a r b).1 ≡ none) ↔ Goes a r b
not_booted a r b ne same =
    let c = settled_lem (completed_cleanly a.later) (not_running b) in
    (
      λ h. inr (ne, c.0 (sym same ∙ h)),
      λ h. elim h [ inl (e, q) ↦ absurd (ne e) | inr (n, q) ↦ same ∙ c.1 q ],
    )

readiness_error-none : (o : Option ReadyResult) → (readiness_error o ≡ none) ↔ (o ≡ none)
readiness_error-none none = (λ h. refl, λ h. refl)
readiness_error-none (some r) = (λ h. absurd (cc h), λ h. absurd (cc h))

after_wait_lem :
    (a : Answers) (r : Runner) (b : BootResult) → ((after_wait a r b).1 ≡ none) ↔ Goes a r b
unfolding after_wait
after_wait_lem a r booted =
    let ready = readiness_lem r.cfg.ready a.probe in
    let error = readiness_error-none (finish_readiness r.cfg.ready a.probe).1 in
    (
      λ h. inl (refl, ready.0 (error.0 h)),
      λ h. elim h [ inl (e, q) ↦ error.1 (ready.1 q) | inr (n, q) ↦ absurd (n refl) ],
    )
after_wait_lem a r is_fatal = not_booted a r is_fatal (λ e. cc e) refl
after_wait_lem a r was_stopped = not_booted a r was_stopped (λ e. cc e) refl
after_wait_lem a r BootResult.canceled = not_booted a r BootResult.canceled (λ e. cc e) refl

start_refused :
    (a : Answers) (r : Runner) (e : SendError StartError)
    → send_result a.start ≡ some e
    → (boot_one a r).1 ≡ some (send_start e)
unfolding boot_one
start_refused a r e h = rw (h, boot_one) refl

start_sent :
    (a : Answers) (r : Runner)
    → send_result a.start ≡ none
    → (boot_one a r).1 ≡ (after_wait a r (boot_result_from a.found a.sent)).1
unfolding boot_one
start_sent a r h = rw (h, boot_one) refl

-- bootOne reports no error exactly for a runner that boots.
pub boot_one_lem : (a : Answers) (r : Runner) → ((boot_one a r).1 ≡ none) ↔ Boots a r
boot_one_lem a r = cases a.start refl
  where
    cases : (s : Option (Option StartError)) → a.start ≡ s → ((boot_one a r).1 ≡ none) ↔ Boots a r
    cases none e =
        let q = start_refused a r SendError.timed_out (ap send_result e) in
        (λ h. absurd (cc (q, h)), λ b. absurd (cc (e, b.0)))
    cases (some (some x)) e =
        let q = start_refused a r (refused x) (ap send_result e) in
        (λ h. absurd (cc (q, h)), λ b. absurd (cc (e, b.0)))
    cases (some none) e =
        let q = start_sent a r (ap send_result e) in
        let l = after_wait_lem a r (boot_result_from a.found a.sent) in
        (λ h. (e, l.0 (sym q ∙ h)), λ b. q ∙ l.1 b.1)

-- Boot marks a runner ready exactly if it counts as booted.
pub boot_one_ready :
    (a : Answers) (r : Runner) → ((boot_one a r).0 ≡ true) ↔ ((boot_one a r).1 ≡ none)
unfolding boot_one
boot_one_ready a r = ground arith
