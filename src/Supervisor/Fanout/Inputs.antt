-- ===== src/Supervisor/Fanout/Inputs.antt =====
-- internal/supervisor/reload.go: the errors of reloadAcrossGroups stand in the order of its input.
use mathlib.Core.Path.{subst}
use zpinit.Base.{
  ℕ, ◌+◌, ◌≡◌, refl, sym, ap, ◌∙◌, ◌⊎◌, inl, inr, true, false, Option, none, some, List, [], ◌∷◌,
  map, arith, length, get_elem?, set, replicate, length-replicate, Bool-cases,
}
use zpinit.Base.Texts.{text_ltb}
use zpinit.Supervisor.Runner.State.{Runner}
use zpinit.Supervisor.Fanout.{
  ReloadFailure, Encounter, reload_one, reload_service, Group, group_from, insert_group,
  sort_groups, write_back, dispatch_groups, reload_across_groups,
}
use zpinit.Supervisor.Fanout.Writes.{
  writes, writes-append, Has, Has-append_left, Has-append_right, Has-append_cases, writes-map,
}
use zpinit.Supervisor.Fanout.Groups.{
  all_members, At, group_from-cases, group_from-At, At-place, place_of,
}

write_back-writes :
    (meets : Runner → Encounter) (ms : List (ℕ × Runner)) (out : List (Option ReloadFailure))
    → write_back ms (map (reload_one meets) (map (λ ((i, r) : ℕ × Runner). r) ms)) out
      ≡ writes (reload_one meets) ms out
unfolding writes
write_back-writes meets [] out = refl
write_back-writes meets ((i, r) ∷ ms) out =
    write_back-writes meets ms (set out i (reload_one meets r))

step :
    (meets : Runner → Encounter) (g : Group) (rest : List Group) (out : List (Option ReloadFailure))
    → dispatch_groups meets (g ∷ rest) out
      ≡ dispatch_groups meets rest (
          write_back g.members
            (map (reload_one meets) (map (λ ((i, r) : ℕ × Runner). r) g.members))
            out)
unfolding dispatch_groups reload_service
step meets g rest out = refl

dispatch-writes :
    (meets : Runner → Encounter) (groups : List Group) (out : List (Option ReloadFailure))
    → dispatch_groups meets groups out ≡ writes (reload_one meets) (all_members groups) out
dispatch-writes meets [] out = unfold dispatch_groups writes in refl
dispatch-writes meets (g ∷ rest) out =
    let own = write_back-writes meets g.members out in
    step meets g rest out
    ∙ dispatch-writes meets rest (
        write_back g.members (map (reload_one meets) (map (λ ((i, r) : ℕ × Runner). r) g.members))
          out)
    ∙ ap (writes (reload_one meets) (all_members rest)) own
    ∙ sym (writes-append (reload_one meets) g.members (all_members rest) out)

insert_here :
    (g h : Group) (rest : List Group)
    → text_ltb h.file g.file ≡ false
    → insert_group g (h ∷ rest) ≡ g ∷ h ∷ rest
unfolding insert_group
insert_here g h rest e = rw (e, insert_group) refl

insert_later :
    (g h : Group) (rest : List Group)
    → text_ltb h.file g.file ≡ true
    → insert_group g (h ∷ rest) ≡ h ∷ insert_group g rest
unfolding insert_group
insert_later g h rest e = rw (e, insert_group) refl

insert-cases :
    (i : ℕ) (r : Runner) (g : Group) (gs : List Group)
    → Has i r (all_members (insert_group g gs))
    → Has i r g.members ⊎ Has i r (all_members gs)
insert-cases i r g [] h = Has-append_cases i r g.members [] (unfold insert_group in h)
insert-cases i r g (x ∷ rest) h = elim (Bool-cases (text_ltb x.file g.file)) [
  | inr e ↦
      Has-append_cases i r g.members (all_members (x ∷ rest)) (rw (insert_here g x rest e) at h)
  | inl e ↦
      elim (Has-append_cases i r x.members (all_members (insert_group g rest))
        (rw (insert_later g x rest e) at h)) [
          | inl a ↦ inr (Has-append_left i r x.members (all_members rest) a)
          | inr a ↦ elim (insert-cases i r g rest a) [
            | inl b ↦ inl b
            | inr b ↦ inr (Has-append_right i r x.members (all_members rest) b)
          ]
        ]
]

insert-Has :
    (i : ℕ) (r : Runner) (g : Group) (gs : List Group)
    → Has i r g.members ⊎ Has i r (all_members gs)
    → Has i r (all_members (insert_group g gs))
insert-Has i r g [] (inl h) = unfold insert_group in (Has-append_left i r g.members [] h)
insert-Has i r g [] (inr h) = absurd h
insert-Has i r g (x ∷ rest) h = elim (Bool-cases (text_ltb x.file g.file)) [
  | inr e ↦ rw (insert_here g x rest e) (joined h)
  | inl e ↦ rw (insert_later g x rest e) (moved (insert-Has i r g rest) h)
]
  where
    joined :
        Has i r g.members ⊎ Has i r (all_members (x ∷ rest)) → Has i r (all_members (g ∷ x ∷ rest))
    joined (inl a) = Has-append_left i r g.members (all_members (x ∷ rest)) a
    joined (inr a) = Has-append_right i r g.members (all_members (x ∷ rest)) a

    moved :
        (Has i r g.members ⊎ Has i r (all_members rest)
          → Has i r (all_members (insert_group g rest)))
        → Has i r g.members ⊎ Has i r (all_members (x ∷ rest))
        → Has i r (all_members (x ∷ insert_group g rest))
    moved ih (inl a) =
        Has-append_right i r x.members (all_members (insert_group g rest)) (ih (inl a))
    moved ih (inr a) = elim (Has-append_cases i r x.members (all_members rest) a) [
      | inl b ↦ Has-append_left i r x.members (all_members (insert_group g rest)) b
      | inr b ↦ Has-append_right i r x.members (all_members (insert_group g rest)) (ih (inr b))
    ]

sort-cases :
    (i : ℕ) (r : Runner) (gs : List Group)
    → Has i r (all_members (sort_groups gs))
    → Has i r (all_members gs)
unfolding sort_groups
sort-cases i r [] h = h
sort-cases i r (g ∷ rest) h = elim (insert-cases i r g (sort_groups rest) h) [
  | inl a ↦ Has-append_left i r g.members (all_members rest) a
  | inr a ↦ Has-append_right i r g.members (all_members rest) (sort-cases i r rest a)
]

sort-Has :
    (i : ℕ) (r : Runner) (gs : List Group)
    → Has i r (all_members gs)
    → Has i r (all_members (sort_groups gs))
unfolding sort_groups
sort-Has i r [] h = h
sort-Has i r (g ∷ rest) h = elim (Has-append_cases i r g.members (all_members rest) h) [
  | inl a ↦ insert-Has i r g (sort_groups rest) (inl a)
  | inr a ↦ insert-Has i r g (sort_groups rest) (inr (sort-Has i r rest a))
]

-- Reloading runners across the groups of their files gives as many errors as there are runners, and each in the place of its runner: the list is that of the reloads one by one in
-- the order of the input, whatever the files of the runners are and however they alternate.
pub reload_across_groups-by_input :
    (meets : Runner → Encounter) (runners : List Runner)
    → reload_across_groups meets runners ≡ map (reload_one meets) runners
unfolding reload_across_groups
reload_across_groups-by_input meets runners =
    let gs = group_from 0 runners [] in
    dispatch-writes meets (sort_groups gs) (replicate (length runners) none)
    ∙ writes-map (reload_one meets) runners (all_members (sort_groups gs))
        (replicate (length runners) none)
        (λ i r h. own i r (group_from-cases i r 0 runners [] (sort-cases i r gs h)))
        (λ i r h. sort-Has i r gs (group_from-At i r 0 runners [] (at_start i r h)))
        (length-replicate (length runners) none)
  where
    same_place : (i j : ℕ) → i ≡ 0 + j → i ≡ j
    same_place i j e = omega (arith, e)

    own : (i : ℕ) (r : Runner) → Has i r [] ⊎ At 0 runners i r → get_elem? runners i ≡ some r
    own i r (inl h) = absurd h
    own i r (inr h) = let (j, e, g) = place_of 0 i runners r h in rw (same_place i j e) g

    zero_add : (i : ℕ) → 0 + i ≡ i
    zero_add i = omega arith

    moved : (i : ℕ) (r : Runner) → At 0 runners (0 + i) r → At 0 runners i r
    moved i r h = subst (λ k. At 0 runners k r) (zero_add i) h

    at_start : (i : ℕ) (r : Runner) → get_elem? runners i ≡ some r → At 0 runners i r
    at_start i r h = moved i r (At-place 0 i runners r h)
