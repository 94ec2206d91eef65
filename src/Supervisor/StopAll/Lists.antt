-- ===== src/Supervisor/StopAll/Lists.antt =====
-- Members and properties of reversed and joined lists.
use mathlib.Core.List.{Memᴰ, reverse, reverse-cons}
use zpinit.Base.{refl, ap, List, [], ◌∷◌, ◌++◌, map, inl, inr, ◌⊎◌}
use zpinit.Supervisor.Runner.State.{Runner}
use zpinit.Supervisor.Replica.Expand.{All}
use zpinit.Supervisor.Diff.Groups.{concat}
use zpinit.Supervisor.StopAll.Order.{All-append}

pub All-concat {κ} :
    (P : Runner → Type κ) (gs : List (List Runner)) → All P (concat gs) → All (All P) gs
unfolding concat
All-concat P [] h = tt
All-concat P (g ∷ gs) h = (first g (concat gs) h, All-concat P gs (rest g (concat gs) h))
  where
    first : (a b : List Runner) → All P (a ++ b) → All P a
    first [] b h = tt
    first (r ∷ a) b h = (h.0, first a b h.1)

    rest : (a b : List Runner) → All P (a ++ b) → All P b
    rest [] b h = h
    rest (r ∷ a) b h = rest a b h.1

pub All-reverse {ℓ κ} : {A : Type ℓ} (P : A → Type κ) (l : List A) → All P l → All P (reverse l)
All-reverse P [] h = tt
All-reverse P (x ∷ l) h =
    rw (reverse-cons x l) (All-append P (reverse l) (x ∷ []) (All-reverse P l h.1) (h.0, tt))

pub mem-left {ℓ} : {A : Type ℓ} (x : A) (a b : List A) → Memᴰ x a → Memᴰ x (a ++ b)
mem-left x [] b m = elim m [ ]
mem-left x (y ∷ a) b (Memᴰ.head e) = Memᴰ.head e
mem-left x (y ∷ a) b (Memᴰ.tail m) = Memᴰ.tail (mem-left x a b m)

pub mem-right {ℓ} : {A : Type ℓ} (x : A) (a b : List A) → Memᴰ x b → Memᴰ x (a ++ b)
mem-right x [] b m = m
mem-right x (y ∷ a) b m = Memᴰ.tail (mem-right x a b m)

pub mem-map {ℓ κ} :
    {A : Type ℓ} {B : Type κ} (x : A) (f : A → B) (l : List A) → Memᴰ x l → Memᴰ (f x) (map f l)
mem-map x f [] m = elim m [ ]
mem-map x f (y ∷ l) (Memᴰ.head e) = Memᴰ.head (ap f e)
mem-map x f (y ∷ l) (Memᴰ.tail m) = Memᴰ.tail (mem-map x f l m)

pub mem-reverse {ℓ} : {A : Type ℓ} (x : A) (l : List A) → Memᴰ x l → Memᴰ x (reverse l)
mem-reverse x [] m = elim m [ ]
mem-reverse x (y ∷ l) (Memᴰ.head e) =
    rw (reverse-cons y l) (mem-right x (reverse l) (y ∷ []) (Memᴰ.head e))
mem-reverse x (y ∷ l) (Memᴰ.tail m) =
    rw (reverse-cons y l) (mem-left x (reverse l) (y ∷ []) (mem-reverse x l m))

-- the group of a runner
pub mem-concat :
    (r : Runner) (gs : List (List Runner))
    → Memᴰ r (concat gs)
    → (g : List Runner) × Memᴰ g gs × Memᴰ r g
unfolding concat
mem-concat r [] m = elim m [ ]
mem-concat r (g ∷ gs) m = elim (parts g m) [
  | inl k ↦ (g, Memᴰ.head refl, k)
  | inr k ↦ let (x, mx, mr) = mem-concat r gs k in (x, Memᴰ.tail mx, mr)
]
  where
    parts : (a : List Runner) → Memᴰ r (a ++ concat gs) → Memᴰ r a ⊎ Memᴰ r (concat gs)
    parts [] m = inr m
    parts (x ∷ a) (Memᴰ.head e) = inl (Memᴰ.head e)
    parts (x ∷ a) (Memᴰ.tail m) = elim (parts a m) [ inl k ↦ inl (Memᴰ.tail k) | inr k ↦ inr k ]
