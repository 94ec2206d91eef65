-- ===== src/Supervisor/Fanout/Writes.antt =====
-- Writes of errors to their places: where every place is written with the value of its runner, the
-- result is the list of these values, in whatever order the writes come.
use zpinit.Base.{
  ℕ, zero, suc, ◌<◌, ◌≤◌, ◌≡◌, refl, sym, ◌∙◌, ◌⊎◌, inl, inr, none, some, List, [], ◌∷◌, ◌++◌, map,
  arith, length, get_elem?, set, length-set, get_elem?-set_self, get_elem?-set_ne, ℕ_discrete,
  dec_lt, length-map,
}

module _ {ℓ κ} {A : Type ℓ} {B : Type κ} where
  unfoldable pub writes : (A → B) → List (ℕ × A) → List B → List B
  writes f [] out = out
  writes f ((i, r) ∷ ms) out = writes f ms (set out i (f r))

  pub writes-append :
      (f : A → B) (a b : List (ℕ × A)) (out : List B)
      → writes f (a ++ b) out ≡ writes f b (writes f a out)
  unfolding writes
  writes-append f [] b out = refl
  writes-append f ((i, r) ∷ a) b out = writes-append f a b (set out i (f r))

  length-writes :
      (f : A → B) (ms : List (ℕ × A)) (out : List B) → length (writes f ms out) ≡ length out
  unfolding writes
  length-writes f [] out = refl
  length-writes f ((i, r) ∷ ms) out = length-writes f ms (set out i (f r)) ∙ length-set out i (f r)

module _ {A : Type 0} where
  abbrev pub Has : ℕ → A → List (ℕ × A) → Type 0
  Has i r [] = ⊥
  Has i r ((k, s) ∷ ms) = ((k ≡ i) × (s ≡ r)) ⊎ Has i r ms

  pub Has-append_left : (i : ℕ) (r : A) (a b : List (ℕ × A)) → Has i r a → Has i r (a ++ b)
  Has-append_left i r [] b h = absurd h
  Has-append_left i r ((k, s) ∷ a) b (inl e) = inl e
  Has-append_left i r ((k, s) ∷ a) b (inr h) = inr (Has-append_left i r a b h)

  pub Has-append_right : (i : ℕ) (r : A) (a b : List (ℕ × A)) → Has i r b → Has i r (a ++ b)
  Has-append_right i r [] b h = h
  Has-append_right i r ((k, s) ∷ a) b h = inr (Has-append_right i r a b h)

  pub Has-append_cases :
      (i : ℕ) (r : A) (a b : List (ℕ × A)) → Has i r (a ++ b) → Has i r a ⊎ Has i r b
  Has-append_cases i r [] b h = inr h
  Has-append_cases i r ((k, s) ∷ a) b (inl e) = inl (inl e)
  Has-append_cases i r ((k, s) ∷ a) b (inr h) = elim (Has-append_cases i r a b h) [
    | inl x ↦ inl (inr x)
    | inr y ↦ inr y
  ]

  -- each write is of the element at its place
  abbrev pub AreOwn : List A → List (ℕ × A) → Type 0
  AreOwn xs ms = (i : ℕ) (r : A) → Has i r ms → get_elem? xs i ≡ some r

  ext : (a b : List A) → ((j : ℕ) → get_elem? a j ≡ get_elem? b j) → a ≡ b
  ext [] [] h = refl
  ext [] (y ∷ b) h = absurd (cc (h 0))
  ext (x ∷ a) [] h = absurd (cc (h 0))
  ext (x ∷ a) (y ∷ b) h = cc (h 0, ext a b (λ j. h (suc j)))

  get_elem?-none : (a : List A) (j : ℕ) → length a ≤ j → get_elem? a j ≡ none
  get_elem?-none [] j h = refl
  get_elem?-none (x ∷ a) zero h = absurd (omega arith)
  get_elem?-none (x ∷ a) (suc j) h = get_elem?-none a j (omega arith)

  get_elem?-some : (xs : List A) (j : ℕ) → j < length xs → (x : A) × (get_elem? xs j ≡ some x)
  get_elem?-some [] j h = absurd (omega arith)
  get_elem?-some (x ∷ xs) zero h = (x, refl)
  get_elem?-some (x ∷ xs) (suc j) h = get_elem?-some xs j (omega arith)

module _ {A B : Type 0} where
  writes-kept :
      (f : A → B) (xs : List A) (ms : List (ℕ × A)) (out : List B) (j : ℕ) (x : A)
      → AreOwn xs ms
      → get_elem? xs j ≡ some x
      → j < length out
      → get_elem? out j ≡ some (f x)
      → get_elem? (writes f ms out) j ≡ some (f x)
  unfolding writes
  writes-kept f xs [] out j x own e lt h = h
  writes-kept f xs ((i, r) ∷ ms) out j x own e lt h =
      writes-kept f xs ms (set out i (f r)) j x (λ k s m. own k s (inr m)) e
        (rw (length-set out i (f r)) lt)
        (elim (ℕ_discrete i j) [
          | yes same ↦ at_place same
          | no other ↦ get_elem?-set_ne out (f r) other ∙ h
        ])
    where
      mine : get_elem? xs i ≡ some r
      mine = own i r (inl (refl, refl))

      equal : i ≡ j → r ≡ x
      equal same = cc (mine, e, same)

      at_place : i ≡ j → get_elem? (set out i (f r)) j ≡ some (f x)
      at_place same = rw (same, equal same) (get_elem?-set_self out j (f x) lt)

  writes-written :
      (f : A → B) (xs : List A) (ms : List (ℕ × A)) (out : List B) (j : ℕ) (x : A)
      → AreOwn xs ms
      → get_elem? xs j ≡ some x
      → j < length out
      → Has j x ms
      → get_elem? (writes f ms out) j ≡ some (f x)
  unfolding writes
  writes-written f xs [] out j x own e lt h = absurd h
  writes-written f xs ((i, r) ∷ ms) out j x own e lt (inl (same, eq)) =
      rw (same, eq)
        (writes-kept f xs ms (set out j (f x)) j x (λ k s m. own k s (inr m)) e
          (rw (length-set out j (f x)) lt) (get_elem?-set_self out j (f x) lt))
  writes-written f xs ((i, r) ∷ ms) out j x own e lt (inr h) =
      writes-written f xs ms (set out i (f r)) j x (λ k s m. own k s (inr m)) e
        (rw (length-set out i (f r)) lt) h

  get_elem?-map :
      (f : A → B) (xs : List A) (j : ℕ) (x : A)
      → get_elem? xs j ≡ some x
      → get_elem? (map f xs) j ≡ some (f x)
  get_elem?-map f [] j x h = absurd (cc h)
  get_elem?-map f (y ∷ xs) zero x h = cc h
  get_elem?-map f (y ∷ xs) (suc j) x h = get_elem?-map f xs j x h

  -- Every place is written, and only with its own value: the result is the map.
  pub writes-map :
      (f : A → B) (xs : List A) (ms : List (ℕ × A)) (out : List B)
      → AreOwn xs ms
      → ((i : ℕ) (r : A) → get_elem? xs i ≡ some r → Has i r ms)
      → length out ≡ length xs
      → writes f ms out ≡ map f xs
  writes-map f xs ms out own all len = ext (writes f ms out) (map f xs) (λ j. at_place j)
    where
      inside :
          (j : ℕ) (x : A)
          → j < length xs
          → get_elem? xs j ≡ some x
          → get_elem? (writes f ms out) j ≡ get_elem? (map f xs) j
      inside j x lt e =
          writes-written f xs ms out j x own e (omega (arith, lt, len)) (all j x e)
          ∙ sym (get_elem?-map f xs j x e)

      outside : (j : ℕ) → length xs ≤ j → get_elem? (writes f ms out) j ≡ get_elem? (map f xs) j
      outside j h =
          get_elem?-none (writes f ms out) j (omega (arith, length-writes f ms out, len, h))
          ∙ sym (get_elem?-none (map f xs) j (omega (arith, length-map xs f, h)))

      at_place : (j : ℕ) → get_elem? (writes f ms out) j ≡ get_elem? (map f xs) j
      at_place j = elim (dec_lt j (length xs)) [
        | yes lt ↦ (let (x, e) = get_elem?-some xs j lt in inside j x lt e)
        | no ge ↦ outside j (omega (arith, ge))
      ]
