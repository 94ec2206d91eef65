-- ===== src/Base/Texts.antt =====
-- Texts: equality tests and code points.
use Prim.Native.Nat.{ℕ, zero, suc, ◌-◌}
use Prim.Native.Char.{code}
use Prim.Native.String.{String}
use mathlib.Core.Bool.{Bool, true, false, false≢true, ◌&&◌, ◌||◌}
use mathlib.Core.Path.{◌≡◌, refl, sym, ◌∙◌}
use mathlib.Core.Logic.{◌≢◌}
use mathlib.Core.List.{List, [], ◌∷◌}
use native.Mathlib.Omega.{arith}
use zpinit.Base.Tests.{if◌then◌else◌, ltb, ◌==◌}
pub use text.Mathlib.Text.{◌==◌ as str_eq}
pub use text.Mathlib.TextEquality.{eq_iff}

-- The code points of a text: its bytes, if it is ASCII.
abbrev pub codes : String → List ℕ
codes String.[] = []
codes (String.◌∷◌ c s) = code c ∷ codes s

-- s + t
unfoldable pub cat : String → String → String
cat String.[] t = t
cat (String.◌∷◌ c s) t = String.◌∷◌ c (cat s t)

-- strings.HasPrefix(s, p), with the pattern first
unfoldable pub has_prefix : String → String → Bool
has_prefix String.[] s = true
has_prefix (String.◌∷◌ c p) String.[] = false
has_prefix (String.◌∷◌ c p) (String.◌∷◌ d s) = code c == code d && has_prefix p s

pub has_prefix-cat : (p s : String) → has_prefix p (cat p s) ≡ true
unfolding has_prefix cat
has_prefix-cat String.[] s = refl
has_prefix-cat (String.◌∷◌ c p) s = ground (arith, has_prefix-cat p s)

-- strings.Contains(s, p)
unfoldable pub contains : String → String → Bool
unfolding has_prefix
contains p String.[] = has_prefix p String.[]
contains p (String.◌∷◌ c s) = has_prefix p (String.◌∷◌ c s) || contains p s

unfoldable pub text_length : String → ℕ
text_length String.[] = 0
text_length (String.◌∷◌ c s) = suc (text_length s)

-- strings.ReplaceAll(s, p, r) for a pattern that is not empty: `skip` counts what is left of an
-- occurrence that has been replaced
unfoldable pub replace_from : ℕ → String → String → String → String
unfolding has_prefix text_length cat
replace_from skip p r String.[] = String.[]
replace_from (suc k) p r (String.◌∷◌ c s) = replace_from k p r s
replace_from zero p r (String.◌∷◌ c s) =
    let found = cat r (replace_from (text_length p - 1) p r s) in
    let kept = String.◌∷◌ c (replace_from zero p r s) in
    if has_prefix p (String.◌∷◌ c s) then found else kept

unfoldable pub replace_all : String → String → String → String
unfolding replace_from
replace_all s p r = replace_from 0 p r s

-- == on texts, as an equation
pub str_eq-eq : (s t : String) → str_eq s t ≡ true → s ≡ t
str_eq-eq s t = (eq_iff s t).0

pub str_eq-ne : (s t : String) → str_eq s t ≡ false → s ≢ t
str_eq-ne s t h e = false≢true (sym h ∙ (eq_iff s t).1 e)

pub str_eq_self : (s : String) → str_eq s s ≡ true
str_eq_self s = (eq_iff s s).1 refl

-- s < t: the order of code points, which is the order of the bytes of UTF-8 that sort.Strings uses
unfoldable pub text_ltb : String → String → Bool
text_ltb String.[] String.[] = false
text_ltb String.[] (String.◌∷◌ d t) = true
text_ltb (String.◌∷◌ c s) String.[] = false
text_ltb (String.◌∷◌ c s) (String.◌∷◌ d t) =
    ltb (code c) (code d) || code c == code d && text_ltb s t

-- equality of slices of texts, element by element
unfoldable pub eq_texts : List String → List String → Bool
eq_texts [] [] = true
eq_texts (s ∷ ss) (t ∷ ts) = str_eq s t && eq_texts ss ts
eq_texts _ _ = false
