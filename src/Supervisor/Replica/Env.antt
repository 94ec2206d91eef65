-- ===== src/Supervisor/Replica/Env.antt =====
-- internal/supervisor/replica.go: what the environment of a replica holds.
use zpinit.Base.{
  ℕ, String, ◌≡◌, refl, Bool, true, false, List, [], ◌∷◌, ◌++◌, inl, inr, arith, Bool-cases, ◌||◌,
  if◌then◌else◌, length, replicate,
}
use mathlib.Core.List.{append-nil}
use zpinit.Base.Texts.{has_prefix, has_prefix-cat}
use zpinit.Base.Decimal.{itoa}
use zpinit.Supervisor.Replica.{
  index_key, index_entry, replace_index, has_index, compose_replica_env,
}

-- the entries that have the key, and those that have not
pub with_key : List String → List String
with_key [] = []
with_key (e ∷ rest) = if has_prefix index_key e then e ∷ with_key rest else with_key rest

pub without_key : List String → List String
without_key [] = []
without_key (e ∷ rest) = if has_prefix index_key e then without_key rest else e ∷ without_key rest

has_prefix-index_entry : (i : ℕ) → has_prefix index_key (index_entry i) ≡ true
unfolding index_entry
has_prefix-index_entry i = has_prefix-cat index_key (itoa i)

module _ (i : ℕ) where
  without_key-replace_index : (b : List String) → without_key (replace_index b i) ≡ without_key b
  unfolding without_key replace_index
  without_key-replace_index [] = refl
  without_key-replace_index (e ∷ b) =
      ground (arith, without_key-replace_index b, has_prefix-index_entry i)

  with_key-replace_index :
      (b : List String)
      → with_key (replace_index b i) ≡ replicate (length (with_key b)) (index_entry i)
  unfolding with_key replace_index
  with_key-replace_index [] = refl
  with_key-replace_index (e ∷ b) =
      ground (arith, with_key-replace_index b, has_prefix-index_entry i)

without_key-append : (a b : List String) → without_key (a ++ b) ≡ without_key a ++ without_key b
unfolding without_key
without_key-append [] b = refl
without_key-append (e ∷ a) b = ground (arith, without_key-append a b)

with_key-append : (a b : List String) → with_key (a ++ b) ≡ with_key a ++ with_key b
unfolding with_key
with_key-append [] b = refl
with_key-append (e ∷ a) b = ground (arith, with_key-append a b)

without_key-entry : (i : ℕ) → without_key (index_entry i ∷ []) ≡ []
unfolding without_key
without_key-entry i = rw (has_prefix-index_entry i)

with_key-entry : (i : ℕ) → with_key (index_entry i ∷ []) ≡ index_entry i ∷ []
unfolding with_key
with_key-entry i = rw (has_prefix-index_entry i)

with_key-none : (b : List String) → has_index b ≡ false → with_key b ≡ []
unfolding with_key has_index
with_key-none [] h = refl
with_key-none (e ∷ b) h = ground (arith, with_key-none b)

-- Composing the environment of a replicated service keeps the other entries in their order. Of the
-- entries with the key ZPINIT_REPLICA_INDEX there is one for each that was there, at least one, and
-- all hold the replica's own index.
pub compose_replica_env_index :
    (base : List String) (i : ℕ)
    → (without_key (compose_replica_env base i true) ≡ without_key base)
      × (with_key (compose_replica_env base i true)
          ≡ replicate (if has_index base then length (with_key base) else 1) (index_entry i))
unfolding compose_replica_env
compose_replica_env_index base i = (
  ground (
    arith,
    without_key-replace_index i base,
    without_key-append (replace_index base i) (index_entry i ∷ []),
    without_key-entry i,
    append-nil (without_key base),
  ),
  ground (
    arith,
    with_key-replace_index i base,
    with_key-append (replace_index base i) (index_entry i ∷ []),
    with_key-entry i,
    with_key-none base,
  ),
)

has_index-append : (a b : List String) → has_index (a ++ b) ≡ has_index a || has_index b
unfolding has_index
has_index-append [] b = refl
has_index-append (e ∷ a) b = ground (arith, has_index-append a b)

has_index-replace_index : (b : List String) (i : ℕ) → has_index (replace_index b i) ≡ has_index b
unfolding has_index replace_index
has_index-replace_index [] i = refl
has_index-replace_index (e ∷ b) i =
    ground (arith, has_index-replace_index b i, has_prefix-index_entry i)

has_index-entry : (i : ℕ) → has_index (index_entry i ∷ []) ≡ true
unfolding has_index
has_index-entry i = rw (has_prefix-index_entry i)

replace_index-entry : (i j : ℕ) → replace_index (index_entry i ∷ []) j ≡ index_entry j ∷ []
unfolding replace_index
replace_index-entry i j = rw (has_prefix-index_entry i)

replace_index-append :
    (a b : List String) (i : ℕ) → replace_index (a ++ b) i ≡ replace_index a i ++ replace_index b i
unfolding replace_index
replace_index-append [] b i = refl
replace_index-append (e ∷ a) b i = ground (arith, replace_index-append a b i)

replace_index-twice :
    (b : List String) (i j : ℕ) → replace_index (replace_index b i) j ≡ replace_index b j
unfolding replace_index
replace_index-twice [] i j = refl
replace_index-twice (e ∷ b) i j =
    ground (arith, replace_index-twice b i j, has_prefix-index_entry i)

or_true : (b : Bool) → (b || true) ≡ true
or_true true = refl
or_true false = refl

-- An environment that was composed before can be composed again: only the last index stays.
pub compose_replica_env_again :
    (base : List String) (i j : ℕ)
    → compose_replica_env (compose_replica_env base i true) j true ≡ compose_replica_env base j true
unfolding compose_replica_env
compose_replica_env_again base i j = elim (Bool-cases (has_index base)) [
  | inl y ↦ rw (y, has_index-replace_index base i, y, replace_index-twice base i j)
  | inr n ↦ rw (
    n,
    has_index-append (replace_index base i) (index_entry i ∷ []),
    has_index-entry i,
    or_true (has_index (replace_index base i)),
    replace_index-append (replace_index base i) (index_entry i ∷ []) j,
    replace_index-twice base i j,
    replace_index-entry i j,
  )
]
