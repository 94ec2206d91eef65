-- ===== src/Supervisor/Fanout/Groups.antt =====
-- internal/supervisor/reload.go: the groups of reloadAcrossGroups hold each runner with its place.
use zpinit.Base.{
  ℕ, zero, suc, ◌+◌, ◌≡◌, refl, sym, ap, ◌⊎◌, inl, inr, true, false, some, List, [], ◌∷◌, ◌++◌,
  arith, get_elem?, Bool-cases,
}
use zpinit.Base.Texts.{str_eq}
use zpinit.Supervisor.Runner.State.{Runner}
use zpinit.Supervisor.Diff.{file_of}
use zpinit.Supervisor.Fanout.{Group, add_member, group_from}
use zpinit.Supervisor.Fanout.Writes.{Has, Has-append_left, Has-append_right, Has-append_cases}

abbrev pub all_members : List Group → List (ℕ × Runner)
all_members [] = []
all_members (g ∷ rest) = g.members ++ all_members rest

-- a runner is added to the groups, and nothing else
add_member-new : (k : ℕ) (s : Runner) (gs : List Group) → Has k s (all_members (add_member k s gs))
unfolding add_member
add_member-new k s [] = inl (refl, refl)
add_member-new k s (g ∷ rest) = elim (Bool-cases (str_eq g.file (file_of s))) [
  | inl e ↦
      rw (e, add_member)
        (Has-append_left k s (g.members ++ (k, s) ∷ []) (all_members rest)
          (Has-append_right k s g.members ((k, s) ∷ []) (inl (refl, refl))))
  | inr e ↦
      rw (e, add_member)
        (Has-append_right k s g.members (all_members (add_member k s rest))
          (add_member-new k s rest))
]

abbrev pub Same : ℕ → Runner → ℕ → Runner → Type 0
Same i r k s = (k ≡ i) × (s ≡ r)

-- the group of the file, with its runner, and the groups after it
add_here :
    (k : ℕ) (s : Runner) (g : Group) (rest : List Group)
    → str_eq g.file (file_of s) ≡ true
    → all_members (add_member k s (g ∷ rest)) ≡ (g.members ++ (k, s) ∷ []) ++ all_members rest
unfolding add_member
add_here k s g rest e = rw (e, add_member) refl

add_later :
    (k : ℕ) (s : Runner) (g : Group) (rest : List Group)
    → str_eq g.file (file_of s) ≡ false
    → all_members (add_member k s (g ∷ rest)) ≡ g.members ++ all_members (add_member k s rest)
unfolding add_member
add_later k s g rest e = rw (e, add_member) refl

add_member-old :
    (i : ℕ) (r : Runner) (k : ℕ) (s : Runner) (gs : List Group)
    → Has i r (all_members gs)
    → Has i r (all_members (add_member k s gs))
add_member-old i r k s [] h = absurd h
add_member-old i r k s (g ∷ rest) h = elim (Bool-cases (str_eq g.file (file_of s))) [
  | inl e ↦ rw (add_here k s g rest e) (elim (Has-append_cases i r g.members (all_members rest) h) [
    | inl a ↦
        Has-append_left i r (g.members ++ (k, s) ∷ []) (all_members rest)
          (Has-append_left i r g.members ((k, s) ∷ []) a)
    | inr b ↦ Has-append_right i r (g.members ++ (k, s) ∷ []) (all_members rest) b
  ])
  | inr e ↦
      rw (add_later k s g rest e) (elim (Has-append_cases i r g.members (all_members rest) h) [
        | inl a ↦ Has-append_left i r g.members (all_members (add_member k s rest)) a
        | inr b ↦
            Has-append_right i r g.members (all_members (add_member k s rest))
              (add_member-old i r k s rest b)
      ])
]

add_member-cases :
    (i : ℕ) (r : Runner) (k : ℕ) (s : Runner) (gs : List Group)
    → Has i r (all_members (add_member k s gs))
    → Has i r (all_members gs) ⊎ Same i r k s
add_member-cases i r k s [] h = only (unfold add_member in h)
  where
    only : Has i r ((k, s) ∷ []) → Has i r [] ⊎ Same i r k s
    only (inl e) = inr e
    only (inr h) = inl h
add_member-cases i r k s (g ∷ rest) h = elim (Bool-cases (str_eq g.file (file_of s))) [
  | inl e ↦
      elim (Has-append_cases i r (g.members ++ (k, s) ∷ []) (all_members rest)
        (rw (add_here k s g rest e) at h)) [
          | inl a ↦ elim (Has-append_cases i r g.members ((k, s) ∷ []) a) [
            | inl b ↦ inl (Has-append_left i r g.members (all_members rest) b)
            | inr b ↦ only b
          ]
          | inr a ↦ inl (Has-append_right i r g.members (all_members rest) a)
        ]
  | inr e ↦
      elim (Has-append_cases i r g.members (all_members (add_member k s rest))
        (rw (add_later k s g rest e) at h)) [
          | inl a ↦ inl (Has-append_left i r g.members (all_members rest) a)
          | inr a ↦ later (add_member-cases i r k s rest a)
        ]
]
  where
    only : Has i r ((k, s) ∷ []) → Has i r (all_members (g ∷ rest)) ⊎ Same i r k s
    only (inl e) = inr e
    only (inr h) = absurd h

    later :
        Has i r (all_members rest) ⊎ Same i r k s → Has i r (all_members (g ∷ rest)) ⊎ Same i r k s
    later (inl x) = inl (Has-append_right i r g.members (all_members rest) x)
    later (inr e) = inr e

-- the runners of a list that starts at a place
abbrev pub At : ℕ → List Runner → ℕ → Runner → Type 0
At k [] i r = ⊥
At k (s ∷ rest) i r = Same i r k s ⊎ At (suc k) rest i r

pub group_from-cases :
    (i : ℕ) (r : Runner) (k : ℕ) (rs : List Runner) (gs : List Group)
    → Has i r (all_members (group_from k rs gs))
    → Has i r (all_members gs) ⊎ At k rs i r
unfolding group_from
group_from-cases i r k [] gs h = inl h
group_from-cases i r k (s ∷ rest) gs h =
    elim (group_from-cases i r (suc k) rest (add_member k s gs) h) [
      | inl a ↦ elim (add_member-cases i r k s gs a) [ inl b ↦ inl b | inr e ↦ inr (inl e) ]
      | inr a ↦ inr (inr a)
    ]

group_from-old :
    (i : ℕ) (r : Runner) (k : ℕ) (rs : List Runner) (gs : List Group)
    → Has i r (all_members gs)
    → Has i r (all_members (group_from k rs gs))
unfolding group_from
group_from-old i r k [] gs h = h
group_from-old i r k (s ∷ rest) gs h =
    group_from-old i r (suc k) rest (add_member k s gs) (add_member-old i r k s gs h)

pub group_from-At :
    (i : ℕ) (r : Runner) (k : ℕ) (rs : List Runner) (gs : List Group)
    → At k rs i r
    → Has i r (all_members (group_from k rs gs))
unfolding group_from
group_from-At i r k [] gs h = absurd h
group_from-At i r k (s ∷ rest) gs (inl (e, q)) =
    group_from-old i r (suc k) rest (add_member k s gs) (rw (sym e, sym q) (add_member-new k s gs))
group_from-At i r k (s ∷ rest) gs (inr h) = group_from-At i r (suc k) rest (add_member k s gs) h

pub At-place :
    (k j : ℕ) (rs : List Runner) (r : Runner) → get_elem? rs j ≡ some r → At k rs (k + j) r
At-place k j [] r h = absurd (cc h)
At-place k zero (s ∷ rest) r h = inl (omega arith, cc h)
At-place k (suc j) (s ∷ rest) r h = inr (rw (shift k j) (At-place (suc k) j rest r h))
  where
    shift : (k j : ℕ) → k + suc j ≡ suc k + j
    shift k j = omega arith

pub place_of :
    (k i : ℕ) (rs : List Runner) (r : Runner)
    → At k rs i r
    → (j : ℕ) × (i ≡ k + j) × (get_elem? rs j ≡ some r)
place_of k i [] r h = absurd h
place_of k i (s ∷ rest) r (inl (e, q)) = (0, omega (arith, e), ap some q)
place_of k i (s ∷ rest) r (inr h) =
    let (j, e, g) = place_of (suc k) i rest r h in (suc j, omega (arith, e), g)
