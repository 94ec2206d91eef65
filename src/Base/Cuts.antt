-- ===== src/Base/Cuts.antt =====
-- strings.Cut, CutPrefix and SplitN on code points, and where they cut.
use zpinit.Base.{
  ℕ, zero, suc, ◌≡◌, refl, Bool, true, false, Option, none, some, List, [], ◌∷◌, ◌++◌, arith, ◌==◌,
  if◌then◌else◌,
}

-- strings.Cut(s, sep) for a separator of one byte
unfoldable pub cut : ℕ → List ℕ → Option (List ℕ × List ℕ)
cut sep [] = none
cut sep (c ∷ rest) = elim (c == sep) [
  | true ↦ some ([], rest)
  | false ↦ elim (cut sep rest) [ none ↦ none | some (a, b) ↦ some (c ∷ a, b) ]
]

-- no code of the list is the separator
unfoldable pub lacks : ℕ → List ℕ → Bool
lacks sep [] = true
lacks sep (c ∷ rest) = if c == sep then false else lacks sep rest

pub cut-lacks : (sep : ℕ) (a b : List ℕ) → lacks sep a ≡ true → cut sep (a ++ sep ∷ b) ≡ some (a, b)
unfolding cut lacks
cut-lacks sep [] b h = ground arith
cut-lacks sep (c ∷ a) b h = ground (arith, cut-lacks sep a b)

pub cut-none : (sep : ℕ) (a : List ℕ) → lacks sep a ≡ true → cut sep a ≡ none
unfolding cut lacks
cut-none sep [] h = refl
cut-none sep (c ∷ a) h = ground (arith, cut-none sep a)

-- strings.CutPrefix and TrimPrefix
unfoldable pub cut_prefix : List ℕ → List ℕ → Option (List ℕ)
cut_prefix [] s = some s
cut_prefix (c ∷ p) [] = none
cut_prefix (c ∷ p) (d ∷ s) = if c == d then cut_prefix p s else none

pub cut_prefix-append : (a d : List ℕ) (c : ℕ) → cut_prefix (a ++ c ∷ []) (a ++ c ∷ d) ≡ some d
unfolding cut_prefix
cut_prefix-append [] d c = ground arith
cut_prefix-append (x ∷ a) d c = ground (arith, cut_prefix-append a d c)

-- strings.Cut(s, sep) for a longer separator
unfoldable pub cut_text : List ℕ → List ℕ → Option (List ℕ × List ℕ)
cut_text sep [] = none
cut_text sep (c ∷ rest) = elim (cut_prefix sep (c ∷ rest)) [
  | some after ↦ some ([], after)
  | none ↦ elim (cut_text sep rest) [ none ↦ none | some (a, b) ↦ some (c ∷ a, b) ]
]

-- strings.SplitN(s, sep, n + 1)
unfoldable pub split_n : ℕ → ℕ → List ℕ → List (List ℕ)
unfolding cut
split_n zero sep s = s ∷ []
split_n (suc n) sep s = elim (cut sep s) [ none ↦ s ∷ [] | some (a, b) ↦ a ∷ split_n n sep b ]

pub cut_prefix_self : (a d : List ℕ) → cut_prefix a (a ++ d) ≡ some d
unfolding cut_prefix
cut_prefix_self [] d = refl
cut_prefix_self (x ∷ a) d = ground (arith, cut_prefix_self a d)

-- The cut is before the first code of the separator, where the text before has none of it.
pub cut_text-lacks :
    (x : ℕ) (sep a b : List ℕ)
    → lacks x a ≡ true
    → cut_text (x ∷ sep) (a ++ x ∷ (sep ++ b)) ≡ some (a, b)
unfolding cut_text lacks cut_prefix
cut_text-lacks x sep [] b h = ground (arith, cut_prefix_self sep b)
cut_text-lacks x sep (c ∷ a) b h = ground (arith, cut_text-lacks x sep a b)

pub lacks-append :
    (x : ℕ) (a b : List ℕ) → lacks x a ≡ true → lacks x b ≡ true → lacks x (a ++ b) ≡ true
unfolding lacks
lacks-append x [] b h k = k
lacks-append x (c ∷ a) b h k = ground (arith, lacks-append x a b)
