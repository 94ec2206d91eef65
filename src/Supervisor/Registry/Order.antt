-- ===== src/Supervisor/Registry/Order.antt =====
-- internal/supervisor/diff.go: sortRunners keeps the runners of each file together, in the order of
-- their indices.
use zpinit.Base.{
  String, ◌≡◌, refl, true, false, List, [], ◌∷◌, arith, Bool-cases, inl, inr, if◌then◌else◌,
}
use zpinit.Base.Texts.{str_eq, str_eq-eq, str_eq_self}
use zpinit.Base.TextOrder.{text_ltb_trans, text_ltb_asym, text_ltb_total}
use zpinit.Supervisor.Runner.State.{Runner}
use zpinit.Supervisor.Replica.Expand.{All}
use zpinit.Supervisor.Diff.{file_of, runners_of}
use zpinit.Supervisor.Registry.{runner_ltb, insert_runner, sort_runners}

runner_ltb_asym : (a b : Runner) → runner_ltb a b ≡ true → runner_ltb b a ≡ false
unfolding runner_ltb
runner_ltb_asym a b h =
    let x = file_of a in
    let y = file_of b in
    ground (arith, text_ltb_asym x y, str_eq-eq x y, str_eq-eq y x, str_eq_self x, str_eq_self y)

-- a < b and b ≤ c give a < c
runner_ltb_trans :
    (a b c : Runner) → runner_ltb a b ≡ true → runner_ltb c b ≡ false → runner_ltb a c ≡ true
unfolding runner_ltb
runner_ltb_trans a b c h k =
    let x = file_of a in
    let y = file_of b in
    let z = file_of c in
    ground (
      arith,
      text_ltb_trans x y z,
      text_ltb_asym x y,
      text_ltb_total y z,
      str_eq-eq x y,
      str_eq-eq z y,
      str_eq-eq x z,
      str_eq_self y,
      str_eq_self z,
      str_eq_self x,
    )

-- no runner of the list comes before r
abbrev pub Low : Runner → List Runner → Type 0
Low r l = All (λ (q : Runner). runner_ltb q r ≡ false) l

abbrev pub IsSorted : List Runner → Type 0
IsSorted [] = Unit
IsSorted (r ∷ rest) = Low r rest × IsSorted rest

Low-insert_runner :
    (q r : Runner) (l : List Runner) → runner_ltb r q ≡ false → Low q l → Low q (insert_runner r l)
unfolding insert_runner
Low-insert_runner q r [] h low = (h, tt)
Low-insert_runner q r (x ∷ l) h low = elim (Bool-cases (runner_ltb r x)) [
  | inl e ↦ rw e (h, low)
  | inr e ↦ rw e (low.0, Low-insert_runner q r l h low.1)
]

-- what comes after a runner that r comes before also comes after r
Low-of_lt : (r q : Runner) (l : List Runner) → runner_ltb r q ≡ true → Low q l → Low r l
Low-of_lt r q [] h low = tt
Low-of_lt r q (x ∷ l) h low =
    (runner_ltb_asym r x (runner_ltb_trans r q x h low.0), Low-of_lt r q l h low.1)

insert_runner-IsSorted : (r : Runner) (l : List Runner) → IsSorted l → IsSorted (insert_runner r l)
unfolding insert_runner
insert_runner-IsSorted r [] s = (tt, tt)
insert_runner-IsSorted r (q ∷ l) s = elim (Bool-cases (runner_ltb r q)) [
  | inl e ↦ rw e ((runner_ltb_asym r q e, Low-of_lt r q l e s.0), s)
  | inr e ↦ rw e (Low-insert_runner q r l e s.0, insert_runner-IsSorted r l s.1)
]

pub sort_runners-IsSorted : (l : List Runner) → IsSorted (sort_runners l)
unfolding sort_runners
sort_runners-IsSorted [] = tt
sort_runners-IsSorted (r ∷ l) = insert_runner-IsSorted r (sort_runners l) (sort_runners-IsSorted l)

-- r stands in front of the runners of a file among those it comes before
insert_runner-front :
    (fn : String) (r q : Runner) (l : List Runner)
    → runner_ltb r q ≡ true
    → Low q l
    → insert_runner r (runners_of fn l) ≡ r ∷ runners_of fn l
unfolding insert_runner runners_of
insert_runner-front fn r q [] h low = refl
insert_runner-front fn r q (x ∷ l) h low =
    ground (arith, insert_runner-front fn r q l h low.1, runner_ltb_trans r q x h low.0)

runners_of-insert_runner :
    (fn : String) (r : Runner) (l : List Runner)
    → IsSorted l
    → runners_of fn (insert_runner r l)
      ≡ (if str_eq (file_of r) fn then insert_runner r (runners_of fn l) else runners_of fn l)
unfolding insert_runner runners_of
runners_of-insert_runner fn r [] s = ground arith
runners_of-insert_runner fn r (q ∷ l) s =
    ground (arith, runners_of-insert_runner fn r l s.1, insert_runner-front fn r q l)

-- Sorting the registry sorts the runners of each file.
pub runners_of-sort_runners :
    (fn : String) (l : List Runner)
    → runners_of fn (sort_runners l) ≡ sort_runners (runners_of fn l)
unfolding sort_runners runners_of
runners_of-sort_runners fn [] = refl
runners_of-sort_runners fn (r ∷ l) = ground (
  arith,
  runners_of-insert_runner fn r (sort_runners l) (sort_runners-IsSorted l),
  runners_of-sort_runners fn l,
)
