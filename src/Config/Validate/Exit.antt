-- ===== src/Config/Validate/Exit.antt =====
-- internal/config/load.go: the service whose exit code counts, in validate.
use zpinit.Base.{
  String, ◌≡◌, ◌≢◌, refl, sym, ◌∙◌, ◌⊎◌, ◌↔◌, inl, inr, true, false, none, some, List, [], ◌∷◌,
  arith, Bool-cases,
}
use zpinit.Base.Int.{pos, ltb_ℤ, ◌≤ℤ◌}
use zpinit.Base.Texts.{str_eq, str_eq-eq, str_eq-ne}
use zpinit.Config.Types.{Service, Config}
use zpinit.Config.Validate.Whole.{
  ConfigError, NameToFile, find_file, check_names, check_single, known_exit, check_exit_code_from,
}
use zpinit.Config.Validate.Unique.{check_names-known, option_cases}
use zpinit.Supervisor.Replica.Expand.{All}

-- one process, whatever happens
abbrev pub IsSingle : Service → Type 0
IsSingle s = (s.replicas.auto ≡ false) × (s.replicas.n ≤ℤ pos 1)

abbrev pub AnyNamed : String → List Service → Type 0
AnyNamed name [] = ⊥
AnyNamed name (s ∷ rest) = (s.name ≡ name) ⊎ AnyNamed name rest

-- the service whose exit code counts
abbrev pub HasExit : Config → Type 0
HasExit cfg =
    (cfg.globals.exit_code_from ≡ "default")
    ⊎ (AnyNamed cfg.globals.exit_code_from cfg.services
        × All (λ s. s.name ≡ cfg.globals.exit_code_from → IsSingle s) cfg.services)

-- the three ways that a service of the loop goes
data Turn (name : String) (s : Service) (more : List ConfigError) (r : List ConfigError)
    : Type 0 where
  other_name : s.name ≢ name → r ≡ more → Turn name s more r
  one_process : s.name ≡ name → IsSingle s → r ≡ more → Turn name s more r
  many : s.name ≡ name → (IsSingle s → ⊥) → r ≢ [] → Turn name s more r

check_single-Turn :
    (name : String) (s : Service) (rest : List Service)
    → Turn name s (check_single name rest) (check_single name (s ∷ rest))
unfolding check_single
check_single-Turn name s rest = elim (Bool-cases (str_eq s.name name)) [
  | inr e ↦ other_name (str_eq-ne s.name name e) (ground (arith, e))
  | inl e ↦ elim (Bool-cases s.replicas.auto) [
    | inl a ↦ many (str_eq-eq s.name name e) (λ h. cc (h.0, a)) (λ h. ground (arith, e, a, h))
    | inr a ↦ elim (Bool-cases (ltb_ℤ (pos 1) s.replicas.n)) [
      | inl n ↦
          many (str_eq-eq s.name name e) (λ h. let (_, k) = h in ground (arith, k, n))
            (λ h. ground (arith, e, a, n, h))
      | inr n ↦
          one_process (str_eq-eq s.name name e) (a, ground (arith, n)) (ground (arith, e, a, n))
    ]
  ]
]

check_single_lem :
    (name : String) (ss : List Service)
    → (check_single name ss ≡ []) ↔ All (λ s. s.name ≡ name → IsSingle s) ss
check_single_lem name [] = unfold check_single in (λ h. tt, λ h. refl)
check_single_lem name (s ∷ rest) =
    let ih = check_single_lem name rest in
    elim (check_single-Turn name s rest) [
      | other_name d e ↦ (λ h. (λ same. absurd (d same), ih.0 (sym e ∙ h)), λ (f, fs). e ∙ ih.1 fs)
      | one_process n one e ↦ (λ h. (λ same. one, ih.0 (sym e ∙ h)), λ (f, fs). e ∙ ih.1 fs)
      | many n no_one d ↦ (λ h. absurd (d h), λ (f, fs). absurd (no_one (f n)))
    ]

any_or_none : (name : String) (ss : List Service) → AnyNamed name ss ⊎ All (λ s. s.name ≢ name) ss
any_or_none name [] = inr tt
any_or_none name (s ∷ rest) = elim (Bool-cases (str_eq s.name name)) [
  | inl e ↦ inl (inl (str_eq-eq s.name name e))
  | inr e ↦ elim (any_or_none name rest) [
    | inl a ↦ inl (inr a)
    | inr k ↦ inr (str_eq-ne s.name name e, k)
  ]
]

any_not_none :
    (name : String) (ss : List Service) → AnyNamed name ss → All (λ s. s.name ≢ name) ss → ⊥
any_not_none name [] a k = a
any_not_none name (s ∷ rest) (inl e) (k, ks) = k e
any_not_none name (s ∷ rest) (inr a) (k, ks) = any_not_none name rest a ks

at_default :
    (cfg : Config) (names : NameToFile)
    → str_eq cfg.globals.exit_code_from "default" ≡ true
    → check_exit_code_from cfg names ≡ []
unfolding check_exit_code_from
at_default cfg names e = rw e refl

unknown :
    (cfg : Config) (names : NameToFile)
    → str_eq cfg.globals.exit_code_from "default" ≡ false
    → find_file cfg.globals.exit_code_from names ≡ none
    → check_exit_code_from cfg names ≡ known_exit cfg none
unfolding check_exit_code_from
unknown cfg names e f = rw (e, f) refl

found_file :
    (cfg : Config) (names : NameToFile) (file : String)
    → str_eq cfg.globals.exit_code_from "default" ≡ false
    → find_file cfg.globals.exit_code_from names ≡ some file
    → check_exit_code_from cfg names ≡ check_single cfg.globals.exit_code_from cfg.services
unfolding check_exit_code_from
found_file cfg names file e f = rw (e, f) refl

pub exit_lem :
    (cfg : Config) → (check_exit_code_from cfg (check_names [] cfg.services).1 ≡ []) ↔ HasExit cfg
exit_lem cfg =
    let name = cfg.globals.exit_code_from in
    let names = (check_names [] cfg.services).1 in
    let known = check_names-known name [] cfg.services in
    let single = check_single_lem name cfg.services in
    elim (Bool-cases (str_eq name "default")) [
      | inl e ↦ (λ h. inl (str_eq-eq name "default" e), λ h. at_default cfg names e)
      | inr e ↦ elim (option_cases (find_file name names)) [
        | inl f ↦ (
          λ h. absurd (cc (sym (unknown cfg names e f) ∙ h)),
          λ h. elim h [
            | inl d ↦ absurd (str_eq-ne name "default" e d)
            | inr (a, one) ↦ absurd (any_not_none name cfg.services a (known.0 f).1)
          ],
        )
        | inr (file, f) ↦ (
          λ h. elim (any_or_none name cfg.services) [
            | inl a ↦ inr (a, single.0 (sym (found_file cfg names file e f) ∙ h))
            | inr k ↦ absurd (cc (known.1 (unfold find_file in refl, k), f))
          ],
          λ h. elim h [
            | inl d ↦ absurd (str_eq-ne name "default" e d)
            | inr (a, one) ↦ found_file cfg names file e f ∙ single.1 one
          ],
        )
      ]
    ]
