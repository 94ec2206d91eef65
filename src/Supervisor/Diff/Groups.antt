-- ===== src/Supervisor/Diff/Groups.antt =====
-- internal/supervisor/diff.go: groupByFilename.
use zpinit.Base.{
  ℕ, zero, suc, ◌≤◌, String, ◌≡◌, ◌≢◌, refl, ap, ◌∙◌, List, [], ◌∷◌, ◌++◌, arith, length,
  Bool-cases, inl, inr,
}
use zpinit.Base.Texts.{str_eq, str_eq-eq, str_eq_self}
use zpinit.Supervisor.Runner.State.{Runner}
use zpinit.Supervisor.Replica.Expand.{All}
use zpinit.Supervisor.Diff.{file_of, split_group, group_with, group_by_filename}

unfoldable pub concat : List (List Runner) → List Runner
concat [] = []
concat (g ∷ rest) = g ++ concat rest

-- a group has a runner, and all of it have its file
abbrev pub IsGroup : List Runner → Type 0
IsGroup [] = ⊥
IsGroup (r ∷ rest) = All (λ (q : Runner). file_of q ≡ file_of r) rest

-- the first runner is not of the file
abbrev pub StartsOff : String → List Runner → Type 0
StartsOff fn [] = Unit
StartsOff fn (r ∷ rest) = file_of r ≢ fn

-- no group goes on with the file of the one before it
abbrev pub AreApart : List (List Runner) → Type 0
AreApart [] = Unit
AreApart ([] ∷ rest) = AreApart rest
AreApart ((r ∷ g) ∷ rest) = StartsOff (file_of r) (concat rest) × AreApart rest

record IsSplit (fn : String) (l g after : List Runner) : Type 0 where
  whole : g ++ after ≡ l
  shorter : length after ≤ length l
  named : All (λ (q : Runner). file_of q ≡ fn) g
  ended : StartsOff fn after

split_group-IsSplit :
    (fn : String) (l : List Runner) → IsSplit fn l (split_group fn l).0 (split_group fn l).1
unfolding split_group
split_group-IsSplit fn [] = record { whole = refl; shorter = omega arith; named = tt; ended = tt }
split_group-IsSplit fn (r ∷ l) = elim (Bool-cases (str_eq (file_of r) fn)) [
  | inl e ↦ rw e (
      let ih = split_group-IsSplit fn l in
      record {
        whole = ap (λ x. r ∷ x) ih.whole;
        shorter = omega (arith, ih.shorter);
        named = (str_eq-eq (file_of r) fn e, ih.named);
        ended = ih.ended;
      })
  | inr e ↦ rw e (record {
    whole = refl;
    shorter = omega arith;
    named = tt;
    ended = λ h. cc (e, str_eq_self fn, h);
  })
]

record AreGroups (l : List Runner) (gs : List (List Runner)) : Type 0 where
  whole : concat gs ≡ l
  each : All IsGroup gs
  apart : AreApart gs

group_with-AreGroups :
    (fuel : ℕ) (l : List Runner) → length l ≤ fuel → AreGroups l (group_with fuel l)
unfolding group_with concat
group_with-AreGroups zero [] h = record { whole = refl; each = tt; apart = tt }
group_with-AreGroups zero (r ∷ l) h = absurd (omega arith)
group_with-AreGroups (suc fuel) [] h = record { whole = refl; each = tt; apart = tt }
group_with-AreGroups (suc fuel) (r ∷ l) h =
    let s = split_group-IsSplit (file_of r) l in
    let ih = group_with-AreGroups fuel (split_group (file_of r) l).1 (omega (arith, s.shorter)) in
    record {
      whole = ap (λ x. r ∷ x) (ap (λ x. (split_group (file_of r) l).0 ++ x) ih.whole ∙ s.whole);
      each = (s.named, ih.each);
      apart = (rw ih.whole s.ended, ih.apart);
    }

-- Grouping cuts the runners into groups, in their order: none is empty, all runners of a group have one
-- file, and no group goes on with the file of the one before it.
pub group_by_filename_groups :
    (rs : List Runner)
    → (concat (group_by_filename rs) ≡ rs)
      × All IsGroup (group_by_filename rs)
      × AreApart (group_by_filename rs)
unfolding group_by_filename
group_by_filename_groups rs =
    let g = group_with-AreGroups (length rs) rs (omega arith) in (g.whole, g.each, g.apart)
