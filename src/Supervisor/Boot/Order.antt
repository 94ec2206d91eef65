-- ===== src/Supervisor/Boot/Order.antt =====
-- internal/supervisor/orchestrator.go: how far boot comes, and when it fails.
use zpinit.Base.{
  ◌≡◌, ◌≢◌, refl, ap, ◌∙◌, true, false, Option, none, some, List, [], ◌∷◌, ◌++◌, arith, Bool-cases,
  inl, inr, ◌⊎◌,
}
use zpinit.Base.Texts.{str_eq-eq, str_eq-ne}
use zpinit.Supervisor.Runner.State.{Runner}
use zpinit.Supervisor.Replica.Expand.{All}
use zpinit.Supervisor.Boot.{Answers, BootError, BootRun, boot_one, tolerates, boot}
use zpinit.Supervisor.Boot.Single.{Boots, boot_one_lem}

-- The runner fails to boot although it is still registered and on_boot_failure is not `continue`.
abbrev pub IsHard : (Runner → Answers) → Runner → BootError → Type 0
IsHard answers r e =
    ((boot_one (answers r) r).1 ≡ some e)
    × ¬ Boots (answers r) r
    × ((answers r).registered ≡ true)
    × (r.cfg.on_boot_failure ≢ "continue")

-- The runner boots, was deregistered meanwhile, or on_boot_failure is `continue`.
abbrev pub IsSoft : (Runner → Answers) → Runner → Type 0
IsSoft answers r =
    Boots (answers r) r ⊎ ((answers r).registered ≡ false) ⊎ (r.cfg.on_boot_failure ≡ "continue")

-- the runner is excused
tolerated :
    (a : Answers) (r : Runner)
    → tolerates a r ≡ true
    → (a.registered ≡ false) ⊎ (r.cfg.on_boot_failure ≡ "continue")
tolerated a r h = elim (Bool-cases a.registered) [
  | inr e ↦ inl e
  | inl e ↦ inr (str_eq-eq r.cfg.on_boot_failure "continue" (ground (arith, e, h)))
]

not_tolerated :
    (a : Answers) (r : Runner)
    → tolerates a r ≡ false
    → (a.registered ≡ true) × (r.cfg.on_boot_failure ≢ "continue")
not_tolerated a r h =
    (ground (arith, h), str_eq-ne r.cfg.on_boot_failure "continue" (ground (arith, h)))

-- What happens at one runner, beside the tests of the loop.
data BootStep (answers : Runner → Answers) (r : Runner) : Type 0 where
  fine : (boot_one (answers r) r).1 ≡ none → Boots (answers r) r → BootStep answers r
  excused :
      tolerates (answers r) r ≡ true
      → ((answers r).registered ≡ false) ⊎ (r.cfg.on_boot_failure ≡ "continue")
      → BootStep answers r
  hard : (e : BootError) → tolerates (answers r) r ≡ false → IsHard answers r e → BootStep answers r

boot_step : (answers : Runner → Answers) (r : Runner) → BootStep answers r
boot_step answers r = cases (boot_one (answers r) r).1 refl
  where
    cases : (o : Option BootError) → (boot_one (answers r) r).1 ≡ o → BootStep answers r
    cases none e = fine e ((boot_one_lem (answers r) r).0 e)
    cases (some x) e = elim (Bool-cases (tolerates (answers r) r)) [
      | inl t ↦ excused t (tolerated (answers r) r t)
      | inr t ↦
          let (there, policy) = not_tolerated (answers r) r t in
          hard x t (e, λ b. cc (e, (boot_one_lem (answers r) r).1 b), there, policy)
    ]

boot_soft :
    (answers : Runner → Answers) (r : Runner) (rest : List Runner)
    → ((boot_one (answers r) r).1 ≡ none) ⊎ (tolerates (answers r) r ≡ true)
    → ((boot answers (r ∷ rest)).started ≡ r ∷ (boot answers rest).started)
      × ((boot answers (r ∷ rest)).failure ≡ (boot answers rest).failure)
unfolding boot
boot_soft answers r rest s = ground arith

boot_hard :
    (answers : Runner → Answers) (r : Runner) (rest : List Runner) (e : BootError)
    → (boot_one (answers r) r).1 ≡ some e
    → tolerates (answers r) r ≡ false
    → ((boot answers (r ∷ rest)).started ≡ r ∷ [])
      × ((boot answers (r ∷ rest)).failure ≡ some (r, e))
unfolding boot
boot_hard answers r rest e h t = ground arith

-- The first runner that fails hard, with those before it.
pub record FailsAt (answers : Runner → Answers) (rs : List Runner) : Type 0 where
  pub before : List Runner
  pub culprit : Runner
  pub after : List Runner
  pub error : BootError
  pub split : rs ≡ before ++ culprit ∷ after
  pub fine : All (IsSoft answers) before
  pub bad : IsHard answers culprit error

-- the outcome of a whole boot
abbrev Ending : (Runner → Answers) → List Runner → BootRun → Type 0
Ending answers rs run =
    (All (IsSoft answers) rs × (run.started ≡ rs) × (run.failure ≡ none))
    ⊎ ((f : FailsAt answers rs) × (run.started ≡ f.before ++ f.culprit ∷ [])
        × (run.failure ≡ some (f.culprit, f.error)))

-- a runner in front that is not the reason of a failure
one_more :
    (answers : Runner → Answers) (r : Runner) (rest : List Runner)
    → IsSoft answers r
    → ((boot answers (r ∷ rest)).started ≡ r ∷ (boot answers rest).started)
      × ((boot answers (r ∷ rest)).failure ≡ (boot answers rest).failure)
    → Ending answers rest (boot answers rest)
    → Ending answers (r ∷ rest) (boot answers (r ∷ rest))
one_more answers r rest s (started, failure) (inl (all, whole, success)) =
    inl ((s, all), started ∙ ap (λ l. r ∷ l) whole, failure ∙ success)
one_more answers r rest s (started, failure) (inr (f, upto, why)) = inr (
  record {
    before = r ∷ f.before;
    culprit = f.culprit;
    after = f.after;
    error = f.error;
    split = ap (λ l. r ∷ l) f.split;
    fine = (s, f.fine);
    bad = f.bad;
  },
  started ∙ ap (λ l. r ∷ l) upto,
  failure ∙ why,
)

-- Boot starts the runners in their order. A runner boots if its start is accepted and it is seen running
-- and is ready, by its probe, without one, or by on_timeout = continue; or if it is not seen running but
-- has completed cleanly. Boot succeeds if each runner boots, was deregistered meanwhile or has
-- on_boot_failure = continue, and has then started all of them. Otherwise it fails with the error of the
-- first runner that did not boot, is still registered and has another on_boot_failure, and has started no
-- runner after that one.
pub boot_outcome :
    (answers : Runner → Answers) (rs : List Runner)
    → let run = boot answers rs in
      (All (IsSoft answers) rs × (run.started ≡ rs) × (run.failure ≡ none))
      ⊎ ((f : FailsAt answers rs) × (run.started ≡ f.before ++ f.culprit ∷ [])
          × (run.failure ≡ some (f.culprit, f.error)))
boot_outcome answers [] = inl (tt, unfold boot in refl, unfold boot in refl)
boot_outcome answers (r ∷ rest) = elim (boot_step answers r) [
  | fine e b ↦
      one_more answers r rest (inl b) (boot_soft answers r rest (inl e)) (boot_outcome answers rest)
  | excused t x ↦
      one_more answers r rest (inr x) (boot_soft answers r rest (inr t)) (boot_outcome answers rest)
  | hard e t h ↦
      let (started, failure) = boot_hard answers r rest e h.0 t in
      inr (
        record {
          before = [];
          culprit = r;
          after = rest;
          error = e;
          split = refl;
          fine = tt;
          bad = h;
        },
        started,
        failure,
      )
]
