-- ===== src/Supervisor/Scale/Indices.antt =====
-- internal/supervisor/scale.go: the indices that scaleUp gives to new replicas.
use zpinit.Base.{
  ℕ, zero, suc, ◌+◌, ◌≤◌, ◌<◌, ◌≡◌, ◌≢◌, refl, true, false, List, [], ◌∷◌, arith, length, ◌==◌,
  Bool-cases, inl, inr, if◌then◌else◌, ==_iff,
}
use zpinit.Supervisor.Scale.{is_used, next_free, allocate}
use zpinit.Supervisor.Replica.Expand.{All}

-- the list without the first occurrence of a number
drop_one : ℕ → List ℕ → List ℕ
drop_one i [] = []
drop_one i (j ∷ l) = let rest = drop_one i l in if j == i then l else j ∷ rest

length-drop_one : (i : ℕ) (l : List ℕ) → is_used i l ≡ true → length l ≡ suc (length (drop_one i l))
unfolding is_used drop_one
length-drop_one i [] u = cc
length-drop_one i (j ∷ l) u = ground (arith, length-drop_one i l)

is_used-drop_one :
    (i k : ℕ) (l : List ℕ) → i ≢ k → is_used k l ≡ true → is_used k (drop_one i l) ≡ true
unfolding is_used drop_one
is_used-drop_one i k [] n u = u
is_used-drop_one i k (j ∷ l) n u = ground (arith, is_used-drop_one i k l)

-- A list that holds all numbers below k has at least k entries.
pigeonhole : (k : ℕ) (l : List ℕ) → ((j : ℕ) → j < k → is_used j l ≡ true) → k ≤ length l
pigeonhole zero l h = omega arith
pigeonhole (suc k) l h =
    let rest : k ≤ length (drop_one k l) =
      pigeonhole k (drop_one k l)
        (λ j p. is_used-drop_one k j l (omega arith) (h j (omega arith))) in
    omega (arith, length-drop_one k l (h k (omega arith)))

-- all numbers below `idx` are used
pub Filled : ℕ → List ℕ → Type 0
Filled idx used = (j : ℕ) → j < idx → is_used j used ≡ true

Filled-suc :
    (idx : ℕ) (used : List ℕ) → Filled idx used → is_used idx used ≡ true → Filled (suc idx) used
unfolding Filled
Filled-suc idx used f u j p = elim (Bool-cases (j == idx)) [
  | inl e ↦ rw ((==_iff j idx).0 e) u
  | inr n ↦ f j (ground arith)
]

next_free_lem :
    (fuel idx : ℕ) (used : List ℕ)
    → Filled idx used
    → length used < fuel + idx
    → (is_used (next_free fuel idx used) used ≡ false) × Filled (next_free fuel idx used) used
unfolding next_free
next_free_lem zero idx used f h = absurd (unfold Filled in omega (arith, pigeonhole idx used f))
next_free_lem (suc fuel) idx used f h = elim (Bool-cases (is_used idx used)) [
  | inl u ↦
      rw (u, next_free) (next_free_lem fuel (suc idx) used (Filled-suc idx used f u) (omega arith))
  | inr n ↦ rw (n, next_free) (n, f)
]

Filled-cons : (idx i : ℕ) (used : List ℕ) → Filled idx used → Filled idx (i ∷ used)
unfolding Filled is_used
Filled-cons idx i used f j p = ground (arith, f j p)

-- No index of the list is used, and none comes twice.
abbrev pub Fresh : List ℕ → List ℕ → Type 0
Fresh used [] = Unit
Fresh used (i ∷ l) = (is_used i used ≡ false) × Fresh (i ∷ used) l

-- The indices that are allocated for `n` replicas beside the used ones: there are n of them, they are
-- new and differ, and each is below the number of replicas that there will be.
pub record IsAllocation (n : ℕ) (used l : List ℕ) : Type 0 where
  pub count : length l ≡ n
  pub fresh : Fresh used l
  pub below : All (λ i. i < length used + n) l

All-weaken : (m n : ℕ) (l : List ℕ) → m ≤ n → All (λ i. i < m) l → All (λ i. i < n) l
All-weaken m n [] le h = tt
All-weaken m n (i ∷ l) le h = (omega arith, All-weaken m n l le h.1)

pub allocate-IsAllocation :
    (n idx : ℕ) (used : List ℕ) → Filled idx used → IsAllocation n used (allocate n idx used)
unfolding allocate
allocate-IsAllocation zero idx used f = record { count = refl; fresh = tt; below = tt }
allocate-IsAllocation (suc n) idx used f =
    let free = next_free (suc (length used)) idx used in
    let (unused, filled) = next_free_lem (suc (length used)) idx used f (omega arith) in
    let ih = allocate-IsAllocation n free (free ∷ used) (Filled-cons free free used filled) in
    let small : free ≤ length used = unfold Filled in pigeonhole free used filled in
    record {
      count = omega (arith, ih.count);
      fresh = (unused, ih.fresh);
      below = (omega arith, All-weaken _ _ (allocate n free (free ∷ used)) (omega arith) ih.below);
    }

pub Filled-zero : (used : List ℕ) → Filled 0 used
unfolding Filled
Filled-zero used j p = absurd (omega arith)
