-- ===== src/Supervisor/Boot.antt =====
-- internal/supervisor/orchestrator.go and reload.go: the ordered boot, at the start and after a reload.
pub mod Single
pub mod Order
use zpinit.Base.{
  String, Bool, true, false, not, ◌&&◌, ◌||◌, Option, none, some, List, [], ◌∷◌, if◌then◌else◌,
}
use zpinit.Base.Texts.{str_eq}
use zpinit.Config.Types.{Service, boot_continue}
use zpinit.Supervisor.Runner.State.{State, Runner, completed_cleanly}
use zpinit.Supervisor.Runner.Handlers.{StartError}
use zpinit.Supervisor.Runner.Waits.{SendError, send_result, BootResult, booted, boot_result_from}
use zpinit.Supervisor.Readiness.{ReadyResult, finish_readiness}

-- What boot meets at one runner: the answer to its start, the state that the wait for the boot result
-- finds and those it is sent, the runner as it is after the wait, the result of the probe, and whether the
-- runner is still registered at the end.
pub record Answers : Type 0 where
  pub start : Option (Option StartError)
  pub found : State
  pub sent : List State
  pub later : Runner
  pub probe : ReadyResult
  pub registered : Bool

pub data BootError : Type 0 where
  send_start : SendError StartError → BootError
  not_running : BootResult → BootError
  readiness : ReadyResult → BootError

-- whether the runner was marked ready, and the error
abbrev pub BootOutcome : Type 0
BootOutcome = Bool × Option BootError

abbrev pub readiness_error : Option ReadyResult → Option BootError
readiness_error none = none
readiness_error (some r) = some (readiness r)

-- the wait for the boot result, and the readiness after it
unfoldable pub after_wait : Answers → Runner → BootResult → BootOutcome
unfolding finish_readiness
after_wait a r booted =
    let (marked, e) = finish_readiness r.cfg.ready a.probe in (marked, readiness_error e)
after_wait a r result =
    if completed_cleanly a.later then (true, none) else (false, some (not_running result))

unfoldable pub boot_one : Answers → Runner → BootOutcome
unfolding after_wait
boot_one a r = elim (send_result a.start) [
  | some e ↦ (false, some (send_start e))
  | none ↦ after_wait a r (boot_result_from a.found a.sent)
]

-- How boot ends: the runners that it started and marked ready, in their order, and the first failure.
pub record BootRun : Type 0 where
  pub started : List Runner
  pub ready : List Runner
  pub failure : Option (Runner × BootError)

abbrev with_first : Runner → Bool → BootRun → BootRun
with_first r marked run = record run {
  started = r ∷ run.started;
  ready = if marked then r ∷ run.ready else run.ready;
}

-- What boot does not fail for: a runner that a reload deregistered meanwhile, and on_boot_failure.
abbrev pub tolerates : Answers → Runner → Bool
tolerates a r = not a.registered || str_eq r.cfg.on_boot_failure boot_continue

unfoldable pub boot : (Runner → Answers) → List Runner → BootRun
unfolding boot_one
boot answers [] = record { started = []; ready = []; failure = none }
boot answers (r ∷ rest) =
    let run = boot answers rest in
    let (marked, error) = boot_one (answers r) r in
    elim error [
      | none ↦ with_first r marked run
      | some e ↦
          if tolerates (answers r) r
          then with_first r marked run
          else record { started = r ∷ []; ready = []; failure = some (r, e) }
    ]

-- runReloadBoots: `ends` says at which jobs the root context has ended or the shutdown has begun, and
-- `registered` which jobs no reload has removed by their turn
unfoldable pub run_reload_boots :
    (Runner → Bool) → (Runner → Bool) → (Runner → Answers) → List Runner → BootRun
unfolding boot_one
run_reload_boots ends registered answers [] = record { started = []; ready = []; failure = none }
run_reload_boots ends registered answers (r ∷ rest) =
    let run = run_reload_boots ends registered answers rest in
    if ends r
    then record { started = []; ready = []; failure = none }
    else if not (registered r)
    then run
    else with_first r (boot_one (answers r) r).0 run
