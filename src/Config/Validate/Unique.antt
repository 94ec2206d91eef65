-- ===== src/Config/Validate/Unique.antt =====
-- internal/config/load.go: the names that validate has seen, and when it finds no collision.
use zpinit.Base.{
  String, ◌≡◌, ◌≢◌, refl, ◌⊎◌, ◌↔◌, inl, inr, Option, none, some, List, [], ◌∷◌, arith, Bool-cases,
}
use zpinit.Base.Texts.{str_eq, str_eq-eq, str_eq-ne}
use zpinit.Config.Types.{Service}
use zpinit.Config.Validate.Whole.{name_collision, NameToFile, find_file, check_names}
use zpinit.Supervisor.Replica.Expand.{All}

-- no two services have one name
abbrev pub AreUnique : List Service → Type 0
AreUnique [] = Unit
AreUnique (s ∷ rest) = All (λ t. s.name ≢ t.name) rest × AreUnique rest

-- no service has a name that was seen
abbrev pub AreFresh : NameToFile → List Service → Type 0
AreFresh seen ss = All (λ s. find_file s.name seen ≡ none) ss

fresh_cons :
    (name file : String) (seen : NameToFile) (t : Service)
    → (find_file t.name ((name, file) ∷ seen) ≡ none)
      ↔ ((name ≢ t.name) × (find_file t.name seen ≡ none))
unfolding find_file
fresh_cons name file seen t = elim (Bool-cases (str_eq name t.name)) [
  | inl e ↦ (λ h. absurd (ground (arith, h, e)), λ (d, h). absurd (d (str_eq-eq name t.name e)))
  | inr e ↦ (λ h. (str_eq-ne name t.name e, ground (arith, h, e)), λ (d, h). ground (arith, h, e))
]

fresh_all :
    (name file : String) (seen : NameToFile) (ss : List Service)
    → AreFresh ((name, file) ∷ seen) ss ↔ (All (λ t. name ≢ t.name) ss × AreFresh seen ss)
fresh_all name file seen [] = (λ h. (tt, tt), λ h. tt)
fresh_all name file seen (t ∷ rest) =
    let head = fresh_cons name file seen t in
    let tail = fresh_all name file seen rest in
    (
      λ (h, hs). let (a, b) = head.0 h in let (c, d) = tail.0 hs in ((a, c), (b, d)),
      λ ((a, c), (b, d)). (head.1 (a, b), tail.1 (c, d)),
    )

names-none :
    (seen : NameToFile) (s : Service) (rest : List Service)
    → find_file s.name seen ≡ none
    → check_names seen (s ∷ rest) ≡ check_names ((s.name, s.filename) ∷ seen) rest
unfolding check_names
names-none seen s rest h = rw (h, check_names) refl

names-some :
    (seen : NameToFile) (s : Service) (rest : List Service) (other : String)
    → find_file s.name seen ≡ some other
    → check_names seen (s ∷ rest) ≡ (
      name_collision other s.filename s.name ∷ (check_names seen rest).0,
      (check_names seen rest).1,
    )
unfolding check_names
names-some seen s rest other h = rw (h, check_names) refl

pub option_cases {ℓ} : {A : Type ℓ} (o : Option A) → (o ≡ none) ⊎ ((a : A) × (o ≡ some a))
option_cases none = inl refl
option_cases (some a) = inr (a, refl)

-- No collision is found exactly if the names are different from each other and from those seen before.
pub check_names_lem :
    (seen : NameToFile) (ss : List Service)
    → ((check_names seen ss).0 ≡ []) ↔ (AreFresh seen ss × AreUnique ss)
check_names_lem seen [] = (λ h. (tt, tt), λ h. unfold check_names in refl)
check_names_lem seen (s ∷ rest) =
    let ih = check_names_lem ((s.name, s.filename) ∷ seen) rest in
    let fresh = fresh_all s.name s.filename seen rest in
    elim (option_cases (find_file s.name seen)) [
      | inl e ↦ rw (names-none seen s rest e) (
        λ h. let (f, u) = ih.0 h in let (d, g) = fresh.0 f in ((e, g), (d, u)),
        λ ((a, g), (d, u)). ih.1 (fresh.1 (d, g), u),
      )
      | inr (other, e) ↦
          rw (names-some seen s rest other e)
            (λ h. absurd (cc h), λ ((a, g), (d, u)). absurd (cc (a, e)))
    ]

-- A name is in the map at the end exactly if it was in it before or a service has it.
pub check_names-known :
    (name : String) (seen : NameToFile) (ss : List Service)
    → (find_file name (check_names seen ss).1 ≡ none)
      ↔ ((find_file name seen ≡ none) × All (λ s. s.name ≢ name) ss)
check_names-known name seen [] = unfold check_names in (λ h. (h, tt), λ (h, u). h)
check_names-known name seen (s ∷ rest) = elim (option_cases (find_file s.name seen)) [
  | inl e ↦ rw (names-none seen s rest e) (
      let ih = check_names-known name ((s.name, s.filename) ∷ seen) rest in
      let step = named_cons name s seen in
      (
        λ h. let (f, u) = ih.0 h in let (d, g) = step.0 f in (g, (d, u)),
        λ (g, (d, u)). ih.1 (step.1 (d, g), u),
      ))
  | inr (other, e) ↦ rw (names-some seen s rest other e) (
      let ih = check_names-known name seen rest in
      (
        λ h. let (f, u) = ih.0 h in (f, (λ same. absurd (clash same other e f), u)),
        λ (g, (d, u)). ih.1 (g, u),
      ))
]
  where
    named_cons :
        (name : String) (s : Service) (seen : NameToFile)
        → (find_file name ((s.name, s.filename) ∷ seen) ≡ none)
          ↔ ((s.name ≢ name) × (find_file name seen ≡ none))
    named_cons name s seen = fresh_cons s.name s.filename seen (record s { name = name })

    clash :
        s.name ≡ name
        → (other : String) → find_file s.name seen ≡ some other
        → find_file name seen ≡ none
        → ⊥
    clash same other e f = cc (same, e, f)
